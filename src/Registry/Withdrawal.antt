-- ===== src/Registry/Withdrawal.antt =====
-- A committed batch can be withdrawn without a trace.
use artest_cli.Base.{
  ℕ, ◌||◌, ◌≡◌, ◌⊎◌, refl, sym, ap, subst, ◌∙◌, inl, inr, true, false, none, some, [], ◌∷◌, ◌++◌,
  String, ◌==◌, eq_iff, ==_iff, is_empty, arith, All, Bool-cases,
}
use mathlib.Core.List.{append_assoc, append-nil}
use artest_cli.Registry.Creators.{Table, Registry, holds, extract}
use artest_cli.Registry.Transaction.{
  Batch, Adding, added, conflict, add_batch, commit, revoke, revoke_one, revoke_loop,
}

-- Every owned identifier has a creator, and the token is not in use.
pub record IsOwned {C : Type 0} (owner : ℕ) (r : Registry C) : Type 0 where
  pub owned : All (λ p. holds p.0 r.creators ≡ true) r.owners
  pub fresh : All (λ p. (p.1 == owner) ≡ false) r.owners

-- The entries that a batch adds.
abbrev entries : {C : Type 0} → Batch C → Table C
entries [] = []
entries ((id, none) ∷ b) = entries b
entries ((id, some c) ∷ b) = (id, c) ∷ entries b

-- The same identifiers under the token.
abbrev owned_by : {C : Type 0} → ℕ → Table C → Table ℕ
owned_by owner [] = []
owned_by owner ((id, c) ∷ es) = (id, owner) ∷ owned_by owner es

-- The entries have distinct identifiers that the table does not hold.
abbrev AreNew : {C : Type 0} → Table C → Table C → Type 0
AreNew t [] = Unit
AreNew t ((id, c) ∷ es) = (holds id t ≡ false) × (holds id es ≡ false) × AreNew t es

module _ {A : Type 0} where
  holds-append : (k : String) (s t : Table A) → holds k (s ++ t) ≡ (holds k s || holds k t)
  holds-append k [] t = refl
  holds-append k ((j, a) ∷ s) t = ground (arith, holds-append k s t)

  extract-append : (k : String) (s t : Table A) → extract k (s ++ t) ≡ extract k s ++ extract k t
  extract-append k [] t = refl
  extract-append k ((j, a) ∷ s) t = ground (arith, extract-append k s t)

  extract_absent : (k : String) (t : Table A) → holds k t ≡ false → extract k t ≡ t
  extract_absent k [] h = refl
  extract_absent k ((j, a) ∷ t) h = ground (arith, extract_absent k t)

  -- What is new after one more entry does not have its identifier.
  AreNew-snoc :
      (id : String) (c : A) (t es : Table A)
      → AreNew (t ++ (id, c) ∷ []) es
      → (holds id es ≡ false) × AreNew t es
  AreNew-snoc id c t [] n = (refl, tt)
  AreNew-snoc id c t ((k, a) ∷ es) n =
      let (rest, new) = AreNew-snoc id c t es n.2 in
      ground (arith, rest, new, holds-append k t ((id, c) ∷ []), eq_iff id k, eq_iff k id)

  owned-holds :
      (t : Table A) (os : Table ℕ) (id : String)
      → All (λ p. holds p.0 t ≡ true) os
      → holds id t ≡ false
      → holds id os ≡ false
  owned-holds t [] id o h = refl
  owned-holds t ((k, n) ∷ os) id o h = ground (arith, owned-holds t os id o.1 h, eq_iff k id)

  owned-snoc :
      (t : Table A) (os : Table ℕ) (id : String) (c : A) (owner : ℕ)
      → All (λ p. holds p.0 t ≡ true) os
      → All (λ p. holds p.0 (t ++ (id, c) ∷ []) ≡ true) (os ++ (id, owner) ∷ [])
  owned-snoc t [] id c owner o =
      (ground (arith, holds-append id t ((id, c) ∷ []), eq_iff id id), tt)
  owned-snoc t ((k, n) ∷ os) id c owner o =
      (ground (arith, holds-append k t ((id, c) ∷ [])), owned-snoc t os id c owner o.1)

module _ {C D : Type 0} (owner : ℕ) (other : Table D) where
  -- What adding a batch to a registry comes to.
  abbrev Adds : Batch C → Registry C → Adding C → Type 0
  Adds b r (conflict id) = Unit
  Adds b r (added r') =
      (r'.creators ≡ r.creators ++ entries b)
      × (r'.owners ≡ r.owners ++ owned_by owner (entries b))
      × AreNew r.creators (entries b)

  Adds-cons :
      (id : String) (c : C) (b : Batch C) (r : Registry C) (x : Adding C)
      → holds id r.creators ≡ false
      → Adds b
          (record { creators = r.creators ++ (id, c) ∷ []; owners = r.owners ++ (id, owner) ∷ [] })
          x
      → Adds ((id, some c) ∷ b) r x
  Adds-cons id c b r (conflict k) h a = tt
  Adds-cons id c b r (added r') h a =
      let (absent, new) = AreNew-snoc id c r.creators (entries b) a.2 in
      (a.0 ∙ append_assoc r.creators _ _, a.1 ∙ append_assoc r.owners _ _, (h, absent, new))

  add_batch-Adds :
      (b : Batch C) (r : Registry C)
      → All (λ p. holds p.0 r.creators ≡ true) r.owners
      → Adds b r (add_batch owner other b r)
  unfolding add_batch
  add_batch-Adds [] r o = (sym (append-nil r.creators), sym (append-nil r.owners), tt)
  add_batch-Adds ((id, none) ∷ b) r o = tt
  add_batch-Adds ((id, some c) ∷ b) r o =
      elim (Bool-cases (is_empty id || holds id other || holds id r.creators)) [
        | inl y ↦ rw y tt
        | inr n ↦
            let h : holds id r.creators ≡ false = ground arith in
            let k : holds id r.owners ≡ false = owned-holds r.creators r.owners id o h in
            let r1 : Registry C = record {
              creators = r.creators ++ (id, c) ∷ [];
              owners = r.owners ++ (id, owner) ∷ [];
            } in
            rw (n, h, k)
              (Adds-cons id c b r (add_batch owner other b r1) h
                (add_batch-Adds b r1 (owned-snoc r.creators r.owners id c owner o)))
      ]

module _ {C : Type 0} (owner : ℕ) where
  revoke_new :
      (t es : Table C)
      → AreNew t es
      → revoke_loop owner (owned_by owner es) (t ++ es) ≡ record { creators = t; owners = [] }
  unfolding revoke_loop
  revoke_new t [] n = rw append-nil refl
  revoke_new t ((id, c) ∷ es) n =
      rw
        (
          (==_iff owner owner).1 refl,
          extract-append id t ((id, c) ∷ es),
          extract_absent id t n.0,
          (eq_iff id id).1 refl,
          extract_absent id es n.1,
        )
        (revoke_new t es n.2)

  revoke_old :
      (os rest : Table ℕ) (t : Table C)
      → All (λ p. (p.1 == owner) ≡ false) os
      → revoke_loop owner (os ++ rest) t
        ≡ record (revoke_loop owner rest t) { owners = os ++ (revoke_loop owner rest t).owners }
  unfolding revoke_loop
  revoke_old [] rest t f = refl
  revoke_old ((id, o) ∷ os) rest t f = rw f.0 (
      ap {A = Registry C} (λ x. record x { owners = (id, o) ∷ x.owners })
        (revoke_old os rest t f.1))

  revoke_one-Adds :
      {D : Type 0} (other : Table D) (b : Batch C) (r r' : Registry C)
      → IsOwned owner r
      → Adds owner other b r (added r')
      → revoke_one owner r' ≡ r
  unfolding revoke_one
  revoke_one-Adds other b r r' o a =
      rw
        (
          a.0,
          a.1,
          revoke_old r.owners (owned_by owner (entries b)) (r.creators ++ entries b) o.fresh,
          revoke_new r.creators (entries b) a.2,
          append-nil,
        )
        refl

Adding-cases :
    {C : Type 0} (x : Adding C)
    → ((id : String) × (x ≡ conflict id)) ⊎ ((r : Registry C) × (x ≡ added r))
Adding-cases (conflict id) = inl (id, refl)
Adding-cases (added r) = inr (r, refl)

module _ {C D : Type 0} where
  -- In registries whose owned identifiers have creators, a commit under a token that no identifier
  -- has either fails and changes neither registry, or succeeds, and then revoking the token restores
  -- both registries: creators, owners and their order.
  pub revoke-commit :
      (owner : ℕ) (commands : Batch C) (instruments : Batch D) (r : Registry C) (s : Registry D)
      → IsOwned owner r
      → IsOwned owner s
      → let (result, r', s') = commit owner commands instruments r s in
        ((result.value ≡ none) × (r' ≡ r) × (s' ≡ s))
        ⊎ ((result.value ≡ some owner) × (revoke result.value r' s' ≡ (r, s)))
  unfolding commit revoke
  revoke-commit owner commands instruments r s o q =
      elim (Adding-cases (add_batch owner s.creators commands r)) [
        | inl (id, e) ↦ rw (e, commit) (inl (refl, refl, refl))
        | inr (r', e) ↦ elim (Adding-cases (add_batch owner r'.creators instruments s)) [
          | inl (id, f) ↦ rw (e, f, commit) (inl (refl, refl, refl))
          | inr (s', f) ↦
              let x : revoke_one owner r' ≡ r = revoke_one-Adds owner s.creators commands r r' o (
                subst (Adds owner s.creators commands r) e
                  (add_batch-Adds owner s.creators commands r o.owned)) in
              let y : revoke_one owner s' ≡ s =
                revoke_one-Adds owner r'.creators instruments s s' q (
                  subst (Adds owner r'.creators instruments s) f
                    (add_batch-Adds owner r'.creators instruments s q.owned)) in
              rw (e, f, commit) (inr (refl, rw (x, y) refl))
        ]
      ]
