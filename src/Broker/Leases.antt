-- ===== src/Broker/Leases.antt =====
-- Extensions/NativeServiceBroker.h of source/ARTestEngine: a lease lasts until it is released.
use artest_cli.Base.{
  ℕ, ◌≡◌, ◌≢◌, refl, ap, All, All-map, ◌∙◌, ◌%◌, ◌+◌, ◌≤◌, ◌<◌, Bool, true, false, Option, none,
  some, List, [], ◌∷◌, String, ◌==◌, str_eq, if◌then◌else◌, arith, eq_iff, length, ◌&&◌,
}
use artest_cli.Broker.{
  BrokerStatus, done, Endpoint, Broker, new_broker, find_lease, is_leased, erase_lease,
  emplace_lease, resolve, resolve_endpoint, lease_out, component_of, release, Ask, resolves,
  releases, serve, serve_all,
}
use artest_cli.Registry.Creators.{lookup}

no_wrap : (n : ℕ) → n + 1 < 18446744073709551616 → (n + 1) % 18446744073709551616 ≡ n + 1
no_wrap n h = omega arith

module _ {C : Type 0} where
  find_lease-erase :
      (t u : ℕ) (ls : List (ℕ × C)) → t ≢ u → find_lease t (erase_lease u ls) ≡ find_lease t ls
  find_lease-erase t u [] n = refl
  find_lease-erase t u ((k, c) ∷ ls) n = ground (arith, find_lease-erase t u ls n)

  emplace_cases :
      (t u : ℕ) (c d : C) (ls : List (ℕ × C))
      → find_lease t ls ≡ some c
      → (b : Bool) → b ≡ is_leased u ls
      → find_lease t (if b then ls else (u, d) ∷ ls) ≡ some c
  emplace_cases t u c d ls h true e = h
  emplace_cases t u c d ls h false e = ground (arith, ap (λ k. is_leased k ls))

  find_lease-emplace :
      (t u : ℕ) (c d : C) (ls : List (ℕ × C))
      → find_lease t ls ≡ some c
      → find_lease t (emplace_lease u d ls) ≡ some c
  find_lease-emplace t u c d ls h = emplace_cases t u c d ls h (is_leased u ls) refl

  -- The tokens given out are below the next one, and the null handle is none of them.
  abbrev pub IsOrdered : Broker C → Type 0
  IsOrdered s = (1 ≤ s.next_lease) × All (λ p. p.0 < s.next_lease) s.leases

  below-find : (n : ℕ) (ls : List (ℕ × C)) → All (λ p. p.0 < n) ls → find_lease n ls ≡ none
  below-find n [] h = refl
  below-find n ((k, c) ∷ ls) h = ground (arith, below-find n ls h.1)

  if-All :
      (P : ℕ × C → Type 0) (b : Bool) (xs ys : List (ℕ × C))
      → All P xs
      → All P ys
      → All P (if b then xs else ys)
  if-All P true xs ys hx hy = hx
  if-All P false xs ys hx hy = hy

  erase_lease-All :
      (P : ℕ × C → Type 0) (t : ℕ) (ls : List (ℕ × C)) → All P ls → All P (erase_lease t ls)
  erase_lease-All P t [] h = tt
  erase_lease-All P t ((k, c) ∷ ls) h =
      let rest = erase_lease-All P t ls h.1 in if-All P (k == t) _ _ rest (h.0, rest)

  -- What serving one request does to the tokens and the services.
  abbrev Grows : Broker C → Broker C → Type 0
  Grows s s1 = IsOrdered s1 × (s1.next_lease ≤ s.next_lease + 1) × (s1.services ≡ s.services)

  if-Grows :
      (s : Broker C) (b : Bool) (x y : BrokerStatus × Option ℕ × Broker C)
      → Grows s x.2
      → Grows s y.2
      → Grows s (if b then x else y).2
  if-Grows s true x y hx hy = hx
  if-Grows s false x y hx hy = hy

  lease_out-Grows :
      (c : C) (s : Broker C)
      → s.next_lease + 1 < 18446744073709551616
      → IsOrdered s
      → Grows s (lease_out c s).2
  lease_out-Grows c s lt h =
      let n = s.next_lease in
      let wider =
        All-map (λ p. p.0 < n) (λ p. p.0 < n + 1) (λ p q. omega (arith, q)) s.leases h.1 in
      rw (no_wrap n lt) (
        (
          omega arith,
          if-All (λ p. p.0 < n + 1) (is_leased n s.leases) _ _ wider (omega arith, wider),
        ),
        omega arith,
        refl,
      )

  resolve_endpoint-Grows :
      (alive : C → Bool) (contract : String) (o : Option (Endpoint C)) (s : Broker C)
      → s.next_lease + 1 < 18446744073709551616
      → IsOrdered s
      → Grows s (resolve_endpoint alive contract o s).2
  resolve_endpoint-Grows alive contract none s lt h = (h, omega arith, refl)
  resolve_endpoint-Grows alive contract (some e) s lt h =
      if-Grows s (alive e.component && str_eq e.contract contract) _ _
        (lease_out-Grows e.component s lt h) (h, omega arith, refl)

  serve-Grows :
      (a : Ask C) (s : Broker C)
      → s.next_lease + 1 < 18446744073709551616
      → IsOrdered s
      → Grows s (serve a s)
  unfolding serve resolve release
  serve-Grows (resolves alive has_output contract name) s lt h =
      if-Grows s has_output _ _
        (resolve_endpoint-Grows alive contract (lookup name s.services) s lt h)
        (h, omega arith, refl)
  serve-Grows (releases t) s lt h =
      ((h.0, erase_lease-All (λ p. p.0 < s.next_lease) t s.leases h.1), omega arith, refl)

  serve_all-IsOrdered :
      (asks : List (Ask C)) (s : Broker C)
      → s.next_lease + length asks < 18446744073709551616
      → IsOrdered s
      → IsOrdered (serve_all asks s) × ((serve_all asks s).services ≡ s.services)
  unfolding serve_all
  serve_all-IsOrdered [] s lt h = (h, refl)
  serve_all-IsOrdered (a ∷ asks) s lt h =
      let (o, le, e) = serve-Grows a s (omega arith) h in
      let (o1, e1) = serve_all-IsOrdered asks (serve a s) (omega (arith, lt, le)) o in (o1, e1 ∙ e)

  -- No request of the list releases the token.
  abbrev pub Spares : ℕ → List (Ask C) → Type 0
  Spares t [] = Unit
  Spares t (resolves alive has_output contract name ∷ asks) = Spares t asks
  Spares t (releases u ∷ asks) = (t ≢ u) × Spares t asks

  if-find :
      (t : ℕ) (c : C) (b : Bool) (x y : BrokerStatus × Option ℕ × Broker C)
      → find_lease t x.2.leases ≡ some c
      → find_lease t y.2.leases ≡ some c
      → find_lease t (if b then x else y).2.leases ≡ some c
  if-find t c true x y hx hy = hx
  if-find t c false x y hx hy = hy

  resolve_endpoint-find :
      (t : ℕ) (c : C) (alive : C → Bool) (contract : String) (o : Option (Endpoint C))
      (s : Broker C)
      → find_lease t s.leases ≡ some c
      → find_lease t (resolve_endpoint alive contract o s).2.leases ≡ some c
  resolve_endpoint-find t c alive contract none s h = h
  resolve_endpoint-find t c alive contract (some e) s h =
      if-find t c (alive e.component && str_eq e.contract contract) _ _
        (find_lease-emplace t s.next_lease c e.component s.leases h) h

  serve_all-find :
      (t : ℕ) (c : C) (asks : List (Ask C)) (s : Broker C)
      → Spares t asks
      → find_lease t s.leases ≡ some c
      → find_lease t (serve_all asks s).leases ≡ some c
  unfolding serve_all serve resolve release
  serve_all-find t c [] s n h = h
  serve_all-find t c (resolves alive has_output contract name ∷ asks) s n h =
      serve_all-find t c asks (serve (resolves alive has_output contract name) s) n (
        if-find t c has_output _ _
          (resolve_endpoint-find t c alive contract (lookup name s.services) s h) h)
  serve_all-find t c (releases u ∷ asks) s n h =
      serve_all-find t c asks (serve (releases u) s) n.1 (find_lease-erase t u s.leases n.0 ∙ h)

  emplaced_cases :
      (t : ℕ) (c : C) (ls : List (ℕ × C)) (b : Bool)
      → b ≡ false
      → find_lease t (if b then ls else (t, c) ∷ ls) ≡ some c
  emplaced_cases t c ls true e = cc
  emplaced_cases t c ls false e = ground arith

  find_lease-emplaced :
      (t : ℕ) (c : C) (ls : List (ℕ × C))
      → find_lease t ls ≡ none
      → find_lease t (emplace_lease t c ls) ≡ some c
  find_lease-emplaced t c ls h = emplaced_cases t c ls (is_leased t ls) (rw (is_leased, h) refl)

  component_of-find :
      (t : ℕ) (c : C) (s : Broker C)
      → 1 ≤ t
      → find_lease t s.leases ≡ some c
      → component_of t s ≡ (done, some c)
  unfolding component_of
  component_of-find t c s p h = rw h (ground arith)

  resolve-lease_out :
      (alive : C → Bool) (name : String) (e : Endpoint C) (s : Broker C)
      → lookup name s.services ≡ some e
      → alive e.component ≡ true
      → resolve alive true e.contract name s ≡ lease_out e.component s
  unfolding resolve
  resolve-lease_out alive name e s l a = rw (l, a, (eq_iff e.contract e.contract).1 refl) refl

  -- The state after requests, and what resolving a service by its contract answers then.
  abbrev pub served : List (String × Endpoint C) → List (Ask C) → Broker C
  served services before = serve_all before (new_broker services)

  -- A service that is configured and alive is leased under a token, and as long as that token is not
  -- released, whatever is resolved and released before and after, the token calls that service. The
  -- tokens must not have run out.
  pub resolve-component_of :
      (services : List (String × Endpoint C)) (before after : List (Ask C)) (alive : C → Bool)
      (name : String) (e : Endpoint C)
      → 2 + length before < 18446744073709551616
      → lookup name services ≡ some e
      → alive e.component ≡ true
      → Spares (served services before).next_lease after
      → let s = served services before in
        let (status, token, s1) = resolve alive true e.contract name s in
        (status ≡ done)
        × (token ≡ some s.next_lease)
        × (component_of s.next_lease (serve_all after s1) ≡ (done, some e.component))
  resolve-component_of services before after alive name e lt l a n =
      let s = served services before in
      let (o, same) =
        serve_all-IsOrdered before (new_broker services) (omega (arith, lt)) (omega arith, tt) in
      let found = ap (lookup name) same ∙ l in
      let leased =
        find_lease-emplaced s.next_lease e.component s.leases
          (below-find s.next_lease s.leases o.1) in
      let s1 = (lease_out e.component s).2 in
      let kept = serve_all-find s.next_lease e.component after s1 n leased in
      rw (resolve-lease_out alive name e s found a)
        (refl, refl, component_of-find s.next_lease e.component (serve_all after s1) o.0 kept)
