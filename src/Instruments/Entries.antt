-- ===== src/Instruments/Entries.antt =====
-- The map of instruments with a set of keys marked as shut down.
use artest_cli.Base.{
  ◌&&◌, ◌≡◌, ◌||◌, refl, subst, inl, inr, Bool, false, not, none, some, List, [], ◌∷◌, keys, String,
  str_eq, eq_iff, All, arith, Bool-cases,
}
use artest_cli.Instruments.Manager.{InstrumentEntry, Entries, find, mark}

-- Whether a key is among those given.
abbrev pub contains : String → List String → Bool
contains k [] = false
contains k (j ∷ js) = str_eq k j || contains k js

-- The keys of a map are distinct.
abbrev pub AreDistinct : List String → Type 0
AreDistinct [] = Unit
AreDistinct (k ∷ ks) = All (λ j. str_eq k j ≡ false) ks × AreDistinct ks

module _ {J D : Type 0} where
  -- Every entry under one of the keys is no longer initialised.
  abbrev pub clear : List String → Entries J D → Entries J D
  clear ids [] = []
  clear ids ((k, e) ∷ rest) =
      (k, record e { initialized = e.initialized && not (contains k ids) }) ∷ clear ids rest

  pub clear_nil : (es : Entries J D) → clear [] es ≡ es
  clear_nil [] = refl
  clear_nil ((k, e) ∷ es) = ground (arith, clear_nil es)

  pub clear-clear :
      (xs : List String) (x : String) (es : Entries J D)
      → clear xs (clear (x ∷ []) es) ≡ clear (x ∷ xs) es
  clear-clear xs x [] = refl
  clear-clear xs x ((k, e) ∷ es) = ground (arith, clear-clear xs x es)

  pub clear-keys : (xs : List String) (es : Entries J D) → keys (clear xs es) ≡ keys es
  clear-keys xs [] = refl
  clear-keys xs ((k, e) ∷ es) = ground (arith, clear-keys xs es)

  -- Clearing a key that is not there changes nothing.
  clear_absent :
      (id : String) (es : Entries J D)
      → All (λ j. str_eq id j ≡ false) (keys es)
      → clear (id ∷ []) es ≡ es
  clear_absent id [] a = refl
  clear_absent id ((k, e) ∷ es) a = ground (arith, clear_absent id es a.1, eq_iff id k, eq_iff k id)

  -- What a lookup and the write through it come to under distinct keys.
  pub clear_missing : (id : String) (es : Entries J D) → find id es ≡ none → clear (id ∷ []) es ≡ es
  unfolding find
  clear_missing id [] n = refl
  clear_missing id ((k, e) ∷ es) n = elim (Bool-cases (str_eq k id)) [
    | inl y ↦ cc (rw y at n)
    | inr z ↦ rw z (ground (arith, clear_missing id es (rw z at n)))
  ]

  pub clear_idle :
      (id : String) (e : InstrumentEntry J D) (es : Entries J D)
      → AreDistinct (keys es)
      → find id es ≡ some e
      → e.initialized ≡ false
      → clear (id ∷ []) es ≡ es
  unfolding find
  clear_idle id e [] d f i = refl
  clear_idle id e ((k, x) ∷ es) d f i = elim (Bool-cases (str_eq k id)) [
    | inl y ↦ ground (
      arith,
      rw y at f,
      clear_absent id es
          (subst (λ j. All (λ l. str_eq j l ≡ false) (keys es)) ((eq_iff k id).0 y) d.0),
    )
    | inr z ↦ rw z (ground (arith, clear_idle id e es d.1 (rw z at f) i))
  ]

  pub clear-mark :
      (id : String) (e : InstrumentEntry J D) (es : Entries J D)
      → AreDistinct (keys es)
      → find id es ≡ some e
      → mark id false es ≡ clear (id ∷ []) es
  unfolding find mark
  clear-mark id e [] d f = refl
  clear-mark id e ((k, x) ∷ es) d f = elim (Bool-cases (str_eq k id)) [
    | inl y ↦ rw y (
        ground (
          arith,
          clear_absent id es
              (subst (λ j. All (λ l. str_eq j l ≡ false) (keys es)) ((eq_iff k id).0 y) d.0),
        ))
    | inr z ↦ rw z (ground (arith, clear-mark id e es d.1 (rw z at f)))
  ]
