-- ===== src/Tests/Broker.antt =====
-- Two services that are leased and released.
use artest_cli.Base.{ℕ, ◌≡◌, refl, true, some, List, [], ◌∷◌, String, arith}
use artest_cli.Broker.{
  Endpoint, Ask, resolves, releases, done, resolve, component_of, serve_all, serve, release,
}
use artest_cli.Broker.Leases.{served, resolve-component_of}

abbrev two_services : List (String × Endpoint ℕ)
two_services =
    ("PS1", record { component = 11; contract = "power" })
    ∷ ("DMM", record { component = 12; contract = "meter" })
    ∷ []

abbrev earlier_asks : List (Ask ℕ)
earlier_asks = resolves (λ c. true) true "power" "PS1" ∷ releases 1 ∷ []

abbrev later_asks : List (Ask ℕ)
later_asks = resolves (λ c. true) true "power" "PS1" ∷ releases 3 ∷ []

next_token : (served two_services earlier_asks).next_lease ≡ 2
unfolding serve_all serve resolve release
next_token = refl

resolve-component_of_example :
    let s = served two_services earlier_asks in
    let (status, token, s1) = resolve (λ c. true) true "meter" "DMM" s in
    (status ≡ done)
    × (token ≡ some s.next_lease)
    × (component_of s.next_lease (serve_all later_asks s1) ≡ (done, some 12))
resolve-component_of_example =
    resolve-component_of two_services earlier_asks later_asks (λ c. true) "DMM"
      (record { component = 12; contract = "meter" }) (omega arith) refl refl
      (λ q. absurd (omega (arith, next_token, q)), tt)
