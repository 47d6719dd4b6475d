-- ===== src/Catalog/Resolution.antt =====
-- What the names of a catalog resolve to.
use artest_cli.Base.{
  ◌||◌, ◌≡◌, ◌⊎◌, refl, subst, inl, inr, true, false, some, List, [], ◌∷◌, ◌++◌, String, is_empty,
  All, All-map, arith, Bool-cases,
}
use artest_cli.Diagnostics.{succeeded}
use artest_cli.Registry.Creators.{holds}
use artest_cli.Registry.Tables.{lookup-append, lookup-snoc}
use artest_cli.Catalog.Components.{
  ComponentDescriptor, Components, Naming, named, taken, names, add_names, add_all, add, find,
}

module _ {J : Type 0} where
  -- A catalog that keeps what another one resolves.
  abbrev pub Extends : Components J → Components J → Type 0
  Extends t t' = (n : String) (d : ComponentDescriptor J) → find n t ≡ some d → find n t' ≡ some d

  -- Every name resolves to the descriptor.
  abbrev pub Resolves : Components J → ComponentDescriptor J → List String → Type 0
  Resolves t d ns = All (λ n. find n t ≡ some d) ns

  Resolves-Extends :
      (t t' : Components J) (d : ComponentDescriptor J) (ns : List String)
      → Extends t t'
      → Resolves t d ns
      → Resolves t' d ns
  Resolves-Extends t t' d ns e r = All-map _ _ (λ n h. e n d h) ns r

  abbrev Named : Components J → ComponentDescriptor J → List String → Naming J → Type 0
  Named t d ns (taken n) = Unit
  Named t d ns (named t') = Extends t t' × Resolves t' d ns

  Named-cons :
      (t : Components J) (d : ComponentDescriptor J) (n : String) (ns : List String) (x : Naming J)
      → holds n t ≡ false
      → Named (t ++ (n, d) ∷ []) d ns x
      → Named t d (n ∷ ns) x
  Named-cons t d n ns (taken m) h r = tt
  Named-cons t d n ns (named t') h r =
      ((λ m e f. r.0 m e (lookup-append m e t _ f)), (r.0 n d (lookup-snoc n d t h), r.1))

  add_names-Named :
      (d : ComponentDescriptor J) (ns : List String) (t : Components J)
      → Named t d ns (add_names d ns t)
  unfolding add_names
  add_names-Named d [] t = ((λ n e h. h), tt)
  add_names-Named d (n ∷ ns) t = elim (Bool-cases (is_empty n || holds n t)) [
    | inl y ↦ rw y tt
    | inr f ↦
        let h : holds n t ≡ false = ground arith in
        rw f (
          Named-cons t d n ns (add_names d ns (t ++ (n, d) ∷ [])) h
            (add_names-Named d ns (t ++ (n, d) ∷ [])))
  ]

  abbrev AllNamed : Components J → List (ComponentDescriptor J) → Naming J → Type 0
  AllNamed t ds (taken n) = Unit
  AllNamed t ds (named t') = Extends t t' × All (λ d. Resolves t' d (names d)) ds

  AllNamed-cons :
      (t t1 : Components J) (d : ComponentDescriptor J) (ds : List (ComponentDescriptor J))
      (x : Naming J)
      → Named t d (names d) (named t1)
      → AllNamed t1 ds x
      → AllNamed t (d ∷ ds) x
  AllNamed-cons t t1 d ds (taken n) a b = tt
  AllNamed-cons t t1 d ds (named t') a b =
      ((λ n e h. b.0 n e (a.0 n e h)), (Resolves-Extends t1 t' d (names d) b.0 a.1, b.1))

  Naming-cases :
      (x : Naming J) → ((n : String) × (x ≡ taken n)) ⊎ ((t : Components J) × (x ≡ named t))
  Naming-cases (taken n) = inl (n, refl)
  Naming-cases (named t) = inr (t, refl)

  add_all-AllNamed :
      (ds : List (ComponentDescriptor J)) (t : Components J) → AllNamed t ds (add_all ds t)
  unfolding add_all
  add_all-AllNamed [] t = ((λ n e h. h), tt)
  add_all-AllNamed (d ∷ ds) t = elim (Naming-cases (add_names d (names d) t)) [
    | inl (n, e) ↦ rw (e, add_all, AllNamed) tt
    | inr (t1, e) ↦
        rw (e, add_all, AllNamed)
          (AllNamed-cons t t1 d ds (add_all ds t1)
            (subst (Named t d (names d)) e (add_names-Named d (names d) t))
            (add_all-AllNamed ds t1))
  ]

  -- Adding descriptors either fails and leaves the catalog as it was, or succeeds, and then every
  -- identity and alias of each of them resolves to it, and every name that resolved before still
  -- resolves to the same descriptor.
  pub find-add :
      (ds : List (ComponentDescriptor J)) (t : Components J)
      → let (r, t') = add ds t in
        ((succeeded r ≡ false) × (t' ≡ t))
        ⊎ ((succeeded r ≡ true) × Extends t t' × All (λ d. Resolves t' d (names d)) ds)
  unfolding add
  find-add ds t = elim (Naming-cases (add_all ds t)) [
    | inl (n, e) ↦ rw (e, add) (inl (refl, refl))
    | inr (t', e) ↦
        let (a, b) = subst (AllNamed t ds) e (add_all-AllNamed ds t) in
        rw (e, add) (inr (refl, a, b))
  ]
