-- ===== src/Parser/Plan.antt =====
-- `ParseText` reads exactly the plan that a document denotes.
use artest_cli.Base.{
  ◌≡◌, ◌↔◌, refl, sym, subst, ap, ◌∙◌, inl, inr, true, false, Option, none, some, List, [], ◌++◌,
  String, str_eq, eq_iff, Bool-cases, Option-cases, arith, if◌then◌else◌,
}
use artest_cli.Base.Int.{ℤ, pos}
use artest_cli.Compiler.Plan.{InstrumentDefinition, StepDefinition, TestPlan}
use artest_cli.Diagnostics.{
  Diagnostic, Outcome, returned, raised, contains_errors, contains_errors-append,
}
use artest_cli.Json.{Json, is_object, member, is_number_integer, is_number_integer_lem}
use artest_cli.Parser.Denotes.{Pairwise, IsInstrument, IsCommand, IsPlan}
use artest_cli.Parser.Members.{text_member, integer_member, parse_instrument, parse_command}
use artest_cli.Parser.Faithful.{returned_eq, parse_instrument-Reads, parse_command-Reads}
use artest_cli.Parser.Parse.{
  parse_all, Version, outside, declared, is_one, format_diagnostics, version_of,
  version_diagnostics, array_member, array_diagnostics, instruments_diagnostics,
  commands_diagnostics, root_diagnostics, parse_members, parse_root, at_source,
}
use artest_cli.Parser.Loops.{Lists, parse_all-Lists}

without_errors :
    (xs ys : List Diagnostic)
    → contains_errors (xs ++ ys) ≡ false
    → (contains_errors xs ≡ false) × (contains_errors ys ≡ false)
without_errors xs ys e = ground (arith, contains_errors-append xs ys)

without_errors_in_four :
    (a b c d : List Diagnostic)
    → contains_errors (a ++ (b ++ (c ++ d))) ≡ false
    → (contains_errors a ≡ false)
      × (contains_errors b ≡ false)
      × (contains_errors c ≡ false)
      × (contains_errors d ≡ false)
without_errors_in_four a b c d e =
    let (e1, e2) = without_errors a (b ++ (c ++ d)) e in
    let (e3, e4) = without_errors b (c ++ d) e2 in
    let (e5, e6) = without_errors c d e4 in (e1, e3, e5, e6)

module _ (j : Json) where
  open j use {Value, view, get_int, get_int_cast}

  -- The members of a root that passes the tests.
  record IsRoot (root : Value) : Type 0 where
    format : text_member j "format" root ≡ some "ARTest.Script"
    number : Value
    has_version : integer_member j "version" root ≡ some number
    version : get_int number ≡ returned (pos 1)
    devices : List Value
    has_instruments : array_member j "instruments" root ≡ some devices
    commands : List Value
    has_commands : array_member j "commands" root ≡ some commands

  format_lem :
      (source : String) (root : Value)
      → contains_errors (format_diagnostics j source root) ≡ false
      → text_member j "format" root ≡ some "ARTest.Script"
  format_lem source root e = elim (Option-cases (text_member j "format" root)) [
    | inl n ↦ cc (rw (n, format_diagnostics) at e)
    | inr (f, g) ↦ elim (Bool-cases (str_eq f "ARTest.Script")) [
      | inl y ↦ g ∙ ap some ((eq_iff f "ARTest.Script").0 y)
      | inr n ↦ cc (rw (g, n, format_diagnostics) at e)
    ]
  ]

  one_lem : (z : ℤ) → is_one z ≡ true → z ≡ pos 1
  one_lem z h = ground arith

  version_lem :
      (source : String) (root : Value)
      → contains_errors (version_diagnostics j source (version_of j root)) ≡ false
      → (v : Value) × (integer_member j "version" root ≡ some v) × (get_int v ≡ returned (pos 1))
  version_lem source root e = elim (Option-cases (integer_member j "version" root)) [
    | inl n ↦ cc (rw (n, version_of) at e)
    | inr (v, g) ↦ (v, g, answer v (get_int v) refl (rw (g, version_of) at e))
  ]
    where
      answer :
          (v : Value) (o : Outcome ℤ)
          → get_int v ≡ o
          → contains_errors (
              version_diagnostics j source
                (elim o as (λ o. Version) [ returned z ↦ declared z | raised what ↦ outside ]))
            ≡ false
          → get_int v ≡ returned (pos 1)
      answer v (raised what) g e = cc (e)
      answer v (returned z) g e = elim (Bool-cases (is_one z)) [
        | inl y ↦ g ∙ ap returned (one_lem z y)
        | inr n ↦ cc (rw n at e)
      ]

  array_lem :
      (code message location : String) (o : Option (List Value))
      → contains_errors (array_diagnostics j code message location o) ≡ false
      → (xs : List Value) × (o ≡ some xs)
  array_lem code message location none e = cc
  array_lem code message location (some xs) e = (xs, refl)

  root_diagnostics-IsRoot :
      (source : String) (root : Value)
      → contains_errors (root_diagnostics j source root) ≡ false
      → IsRoot root
  unfolding root_diagnostics
  root_diagnostics-IsRoot source root e =
      let (e1, e3, e5, e6) =
        without_errors_in_four (format_diagnostics j source root)
          (version_diagnostics j source (version_of j root)) (instruments_diagnostics j source root)
          (commands_diagnostics j source root) e in
      let (v, g, h) = version_lem source root e3 in
      let (xs, k) =
        array_lem "SCRIPT_INSTRUMENTS_INVALID" "The instruments member must be an array."
          (at_source source "instruments") (array_member j "instruments" root) e5 in
      let (ys, l) =
        array_lem "SCRIPT_COMMANDS_INVALID" "The commands member must be an array."
          (at_source source "commands") (array_member j "commands" root) e6 in
      record {
        format = format_lem source root e1;
        number = v;
        has_version = g;
        version = h;
        devices = xs;
        has_instruments = k;
        commands = ys;
        has_commands = l;
      }

  root_diagnostics_none :
      (source : String) (root : Value) → IsRoot root → root_diagnostics j source root ≡ []
  unfolding root_diagnostics
  root_diagnostics_none source root r =
      rw
        (
          r.format, r.has_version, r.version, r.has_instruments, r.has_commands, format_diagnostics,
          version_of, array_diagnostics,
        )
        refl

  -- The plan of a root with these members.
  HasParts : (root : Value) → IsRoot root → TestPlan Value → Type 0
  HasParts root r plan =
      (plan.version ≡ pos 1)
      × Pairwise (IsInstrument j) r.devices plan.instruments
      × Pairwise (IsCommand j) r.commands plan.steps

  TestPlan_eq :
      (p q : TestPlan Value)
      → p.version ≡ q.version
      → p.instruments ≡ q.instruments
      → p.steps ≡ q.steps
      → p ≡ q
  TestPlan_eq p q a b c = cc (a, b, c)

  built_lem :
      (vs ws : List Value) (ds es : List Diagnostic) (is : List (InstrumentDefinition Value))
      (ss : List (StepDefinition Value)) (plan : TestPlan Value)
      → Lists (IsInstrument j) vs ds is
      → Lists (IsCommand j) ws es ss
      → ((if contains_errors (ds ++ es)
            then none
            else some (record { version = pos 1; instruments = is; steps = ss }))
          ≡ some plan)
        ↔ ((plan.version ≡ pos 1)
            × Pairwise (IsInstrument j) vs plan.instruments
            × Pairwise (IsCommand j) ws plan.steps)
  built_lem vs ws ds es is ss plan l k = elim (Bool-cases (contains_errors ds)) [
    | inl d ↦
        rw (contains_errors-append ds es, d)
          ((λ h. cc (h)), (λ h. absurd (l.1 d plan.instruments h.1)))
    | inr d ↦ elim (Bool-cases (contains_errors es)) [
      | inl e ↦
          rw (contains_errors-append ds es, d, e)
            ((λ h. cc (h)), (λ h. absurd (k.1 e plan.steps h.2)))
      | inr e ↦
          let (p, u) = l.0 d in
          let (q, v) = k.0 e in
          rw (contains_errors-append ds es, d, e)
            (
              (λ h. fits plan p q (cc (h))),
              (λ h. ap some (sym (TestPlan_eq plan _ h.0 (u _ h.1) (v _ h.2)))),
            )
    ]
  ]
    where
      fits :
          (plan : TestPlan Value)
          → Pairwise (IsInstrument j) vs is
          → Pairwise (IsCommand j) ws ss
          → record { version = pos 1; instruments = is; steps = ss } ≡ plan
          → (plan.version ≡ pos 1)
            × Pairwise (IsInstrument j) vs plan.instruments
            × Pairwise (IsCommand j) ws plan.steps
      fits plan p q e = rw (← e) (refl, p, q)

  parse_members-HasParts :
      (source : String) (root : Value) (r : IsRoot root) (plan : TestPlan Value)
      → ((parse_members j source root).value ≡ some plan) ↔ HasParts root r plan
  unfolding parse_members HasParts
  parse_members-HasParts source root r plan =
      let (ds, is) = parse_all (parse_instrument j) source "instruments" 0 r.devices in
      let (es, ss) = parse_all (parse_command j) source "commands" 0 r.commands in
      rw (r.has_instruments, r.has_commands, r.has_version, r.version, array_member, version_of)
        (built_lem r.devices r.commands ds es is ss plan
          (parse_all-Lists (IsInstrument j) (parse_instrument j) (parse_instrument-Reads j) source
            "instruments" 0 r.devices)
          (parse_all-Lists (IsCommand j) (parse_command j) (parse_command-Reads j) source "commands"
            0 r.commands))

  integer_member_lem :
      (key : String) (root v : Value)
      → integer_member j key root ≡ some v
      → is_number_integer (view v) ≡ true
  integer_member_lem key root v e = at (member key (view root)) e
    where
      at :
          (o : Option Value)
          → (elim o as (λ x. Option Value) [
            | none ↦ none
            | some m ↦ if is_number_integer (view m) then some m else none
          ])
            ≡ some v
          → is_number_integer (view v) ≡ true
      at none q = cc
      at (some m) q = elim (Bool-cases (is_number_integer (view m))) [
        | inl y ↦
            let same : some m ≡ some v = rw y at q in
            let one : m ≡ v = cc same in subst (λ x. is_number_integer (view x) ≡ true) one y
        | inr n ↦ cc (rw n at q)
      ]

  IsPlan-HasParts :
      (root : Value) (plan : TestPlan Value)
      → is_object (view root) ≡ true
      → (r : IsRoot root) → HasParts root r plan
      → IsPlan j root plan
  unfolding HasParts
  IsPlan-HasParts root plan o r (one, devices, commands) =
      let (written, stores) =
        is_number_integer_lem (view r.number)
          (integer_member_lem "version" root r.number r.has_version) in
      record {
        is_root = o;
        format = r.format;
        one = one;
        number = r.number;
        has_version = r.has_version;
        written = written;
        has_written = stores;
        version =
            one
            ∙ returned_eq (get_int r.number) (pos 1) _ r.version
                (get_int_cast r.number written stores);
        devices = r.devices;
        has_instruments = r.has_instruments;
        instruments = devices;
        commands = r.commands;
        has_commands = r.has_commands;
        steps = commands;
      }

  IsRoot_lem :
      (root : Value) (plan : TestPlan Value)
      → IsPlan j root plan
      → (r : IsRoot root) × HasParts root r plan
  unfolding HasParts
  IsRoot_lem root plan p = (
    record {
      format = p.format;
      number = p.number;
      has_version = p.has_version;
      version = get_int_cast p.number p.written p.has_written ∙ ap returned (sym p.version ∙ p.one);
      devices = p.devices;
      has_instruments = p.has_instruments;
      commands = p.commands;
      has_commands = p.has_commands;
    },
    (p.one, p.instruments, p.steps),
  )

  -- The parser answers a plan exactly if the document denotes it: the format is that of the language,
  -- the version is an integer that an `int` holds as 1, so it is 1 modulo 2^32, and instruments and
  -- commands are, one for one and in order, those of the plan, with their types, identifiers,
  -- parameters and policies. The integers of a policy are the document's modulo 2^32 for the
  -- attempts and modulo 2^64 for the times.
  pub parse_root-IsPlan :
      (source : String) (root : Value) (plan : TestPlan Value)
      → ((parse_root j source root).value ≡ some plan) ↔ IsPlan j root plan
  unfolding parse_root
  parse_root-IsPlan source root plan = elim (Bool-cases (is_object (view root))) [
    | inr n ↦ rw n ((λ h. cc (h)), (λ p. cc (n, p.is_root)))
    | inl y ↦ elim (Bool-cases (contains_errors (root_diagnostics j source root))) [
      | inl e ↦
          rw (y, e)
            (
              (λ h. cc (h)),
              (λ p. cc (e, root_diagnostics_none source root (IsRoot_lem root plan p).0)),
            )
      | inr e ↦
          rw (y, e)
            (
              (λ h.
                  let r = root_diagnostics-IsRoot source root e in
                  IsPlan-HasParts root plan y r ((parse_members-HasParts source root r plan).0 h)),
              (λ p.
                  let (r, q) = IsRoot_lem root plan p in
                  (parse_members-HasParts source root r plan).1 q),
            )
    ]
  ]
