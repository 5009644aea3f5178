-- ===== src/Rig/Leased.antt =====
-- banc-host/src/rig.rs over banc-host/src/net/lease.rs: a rig that is held by a lease.
use banc.Common.{
  ◌+◌, ◌≡◌, subst, some, List, [], ◌∷◌, ◌++◌, arith, Result, ok, err, length, replicate, true,
}
use Prim.{absurd}
use banc.Common.Text.{Text}
use banc.Common.Time.{Instant, Duration}
use banc.Config.{LeaseConfig, FilePath}
use banc.Lease.{renew, release}
use banc.Lease.Client.{ClientError, Answer, got, acquire_loop, Renewer, Wake, stopped, renew_loop}
use banc.Lease.Client.Renew.{Steady}
use banc.Lease.Client.Life.{
  LeaseClient, Begun, begun, not_begun, still_asking, acquire_client, begun_released,
}
use banc.Rig.{Env, Rig, lease, acquire, holder_identity, timeout}
use banc.Rig.Acquiring.{acquired, HeldAs}
use banc.Rig.Token.{IsSecret}

module _ {E Table L S : Type 0} (env : Env E Table) (take_flock : FilePath → Duration → Result E L)
    (start : Instant) (connect : (addr token : Text) → Result E S)
    (answers : (holder : Text) → S → List (Answer E)) (spawn : Result E (Unit {0}))
    (show : ClientError E → E) (unfinished : E) where
  taken : Begun E S → Result E (LeaseClient S)
  taken (begun c) = ok c
  taken (not_begun e) = err (show e)
  taken still_asking = err unfinished

  -- `LeaseClient::acquire` as `Rig::acquire` calls it; `unfinished` stands for a wait that the answers
  -- do not end.
  unfoldable pub acquire_lease : (addr token holder : Text) → Duration → Result E (LeaseClient S)
  unfolding taken
  acquire_lease addr token holder t =
      taken (acquire_client start t (connect addr token) (answers holder) spawn)

  taken-begun : (b : Begun E S) (c : LeaseClient S) → taken b ≡ ok c → b ≡ begun c
  unfolding taken
  taken-begun (begun d) c e = ground (arith, e)
  taken-begun (not_begun x) c e = absurd (ground (arith, e))
  taken-begun still_asking c e = absurd (ground (arith, e))

  acquire_lease-begun :
      (addr token holder : Text) (t : Duration) (c : LeaseClient S)
      → acquire_lease addr token holder t ≡ ok c
      → acquire_client start t (connect addr token) (answers holder) spawn ≡ begun c
  unfolding acquire_lease
  acquire_lease-begun addr token holder t c e = taken-begun _ c e

  -- A rig whose config names a lease server is held by a lease that this server has granted to this
  -- process, on a connection that was made with the token that the config's token file has, which is
  -- not empty, at a try of the loop whose deadline the timeout of the environment sets; the thread that comes with the rig renews that
  -- lease on that connection for as long as the server acknowledges, and when the rig is dropped
  -- it releases it, last of all.
  pub leased_rig :
      (rig : Rig Table L (LeaseClient S)) (l : LeaseConfig) (ws rest : List (Wake E S))
      → acquire env take_flock acquire_lease ≡ ok rig
      → rig.config.rig.lease ≡ some l
      → Steady ws
      → (token : Text) × IsSecret env l.token_file rig.base_dir token
        × (c : LeaseClient S) × (rig.lock ≡ lease c)
        × (r : Renewer S) × (c.thread ≡ some r)
        × (connect l.addr token ≡ ok r.stream)
        × (acquire_loop (start + timeout env) (timeout env) (answers (holder_identity env) r.stream)
            ≡ got r.id)
        × (renew_loop r (ws ++ (stopped ∷ rest)) ≡ (
          r,
          replicate (length ws) (r.stream, renew r.id) ++ ((r.stream, release r.id) ∷ []),
          true,
        ))
  leased_rig rig l ws rest e has s =
      let (path, p, q, v, h) = acquired env take_flock acquire_lease rig e in
      let (token, c, full, k, same) =
        subst (λ o. HeldAs env take_flock acquire_lease o rig.config rig.base_dir rig.lock) has h in
      let (r, made, loop, thread, sends) =
        begun_released start (timeout env) (connect l.addr token) (answers (holder_identity env))
          spawn c ws rest (acquire_lease-begun l.addr token (holder_identity env) (timeout env) c k)
          s in
      (token, full, c, same, r, thread, made, loop, sends)
