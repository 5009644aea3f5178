-- ===== src/Icd/Paths.antt =====
-- banc-icd/src/lib.rs: the paths, from which the keys of the messages are made.
use banc.Common.{
  ◌≡◌, ◌↔◌, inl, inr, refl, Option, some, List, [], ◌∷◌, sym, ap, ◌∙◌, some-inj, find,
}
use banc.Common.Text.{Text, text_eq}
use banc.Icd.{
  identify, reset, gpio_config, gpio_set, gpio_read, pin_monitor, uart_config, uart_tx,
  spi_transfer, i2c_transaction, capture_control, capture_read, path, pin_edge, uart_rx, topic_path,
  Entry, entry_path, paths,
}

abbrev entries : List Entry
entries =
    inl identify
    ∷ inl reset
    ∷ inl gpio_config
    ∷ inl gpio_set
    ∷ inl gpio_read
    ∷ inl pin_monitor
    ∷ inl uart_config
    ∷ inl uart_tx
    ∷ inl spi_transfer
    ∷ inl i2c_transaction
    ∷ inl capture_control
    ∷ inl capture_read
    ∷ inr pin_edge
    ∷ inr uart_rx
    ∷ []

-- The first entry whose constant is the text.
of_path : Text → Option Entry
of_path t = find (λ k. text_eq (paths k) t) entries

of_path-paths : (k : Entry) → of_path (paths k) ≡ some k
unfolding of_path paths text_eq
of_path-paths (inl identify) = refl
of_path-paths (inl reset) = refl
of_path-paths (inl gpio_config) = refl
of_path-paths (inl gpio_set) = refl
of_path-paths (inl gpio_read) = refl
of_path-paths (inl pin_monitor) = refl
of_path-paths (inl uart_config) = refl
of_path-paths (inl uart_tx) = refl
of_path-paths (inl spi_transfer) = refl
of_path-paths (inl i2c_transaction) = refl
of_path-paths (inl capture_control) = refl
of_path-paths (inl capture_read) = refl
of_path-paths (inr pin_edge) = refl
of_path-paths (inr uart_rx) = refl

entry_path-paths : (k : Entry) → entry_path k ≡ paths k
unfolding path topic_path paths
entry_path-paths (inl identify) = refl
entry_path-paths (inl reset) = refl
entry_path-paths (inl gpio_config) = refl
entry_path-paths (inl gpio_set) = refl
entry_path-paths (inl gpio_read) = refl
entry_path-paths (inl pin_monitor) = refl
entry_path-paths (inl uart_config) = refl
entry_path-paths (inl uart_tx) = refl
entry_path-paths (inl spi_transfer) = refl
entry_path-paths (inl i2c_transaction) = refl
entry_path-paths (inl capture_control) = refl
entry_path-paths (inl capture_read) = refl
entry_path-paths (inr pin_edge) = refl
entry_path-paths (inr uart_rx) = refl

-- The path of an entry of the tables of endpoints and topics is the constant of `paths` that is named
-- after it, and no other: no two entries share a path, and none is mistyped.
pub entry_path_iff : (k l : Entry) → (entry_path k ≡ paths l) ↔ (k ≡ l)
entry_path_iff k l = (
  (λ e.
      some-inj
        (sym (of_path-paths k) ∙ ap of_path (sym (entry_path-paths k) ∙ e) ∙ of_path-paths l)),
  (λ e. entry_path-paths k ∙ ap paths e),
)
