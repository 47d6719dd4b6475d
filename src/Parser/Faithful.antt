-- ===== src/Parser/Faithful.antt =====
-- Each part of the parser reads what the description of the document says.
use artest_cli.Base.{
  ℕ, sym, ◌≡◌, refl, ap, subst, ◌∙◌, true, Option, none, some, String, ◌⧺◌, if◌then◌else◌,
}
use artest_cli.Base.Int.{ℤ, pos, wrap, half_int, half_int64}
use artest_cli.Compiler.Plan.{InstrumentDefinition, StepDefinition}
use artest_cli.Compiler.Steps.{Checked, accepted, fail}
use artest_cli.Diagnostics.{Outcome, returned, raised, what_or}
use artest_cli.Json.{
  Json, is_object, is_number_integer, integer_of, integer_of-some, is_number_integer_lem, member,
  text_of,
}
use artest_cli.Parser.Denotes.{
  IsInteger, IsAction, IsPolicy, IsPolicyMember, IsInstrument, IsCommand,
}
use artest_cli.Parser.Members.{
  text_member, object_member, integer_member, action_of, instrument_of, identifier, read_integer,
  read_action, read_policy, policy_at, parse_instrument, parse_command,
}
use artest_cli.Parser.Reads.{
  Reads, Yields, option-Reads, test-Reads, option-Yields, test-Yields, checked-Reads, bind-Yields,
}
use artest_cli.Results.{StepExecutionPolicy, FailureAction}

StepExecutionPolicy_eq :
    (p q : StepExecutionPolicy)
    → p.max_attempts ≡ q.max_attempts
    → p.retry_delay ≡ q.retry_delay
    → p.timeout ≡ q.timeout
    → p.on_failure ≡ q.on_failure
    → p ≡ q
StepExecutionPolicy_eq p q a b c d = cc (a, b, c, d)

StepDefinition_eq :
    {V : Type 0} (p q : StepDefinition V)
    → p.step_id ≡ q.step_id
    → p.command_name ≡ q.command_name
    → p.instrument_id ≡ q.instrument_id
    → p.parameters ≡ q.parameters
    → p.policy ≡ q.policy
    → p ≡ q
StepDefinition_eq p q a b c d e = cc (a, b, c, d, e)

InstrumentDefinition_eq :
    {V : Type 0} (p q : InstrumentDefinition V)
    → p.device_type ≡ q.device_type
    → p.id ≡ q.id
    → p.configuration ≡ q.configuration
    → p ≡ q
InstrumentDefinition_eq p q a b c = cc (a, b, c)

some_eq : {A : Type 0} (o : Option A) (a b : A) → o ≡ some a → o ≡ some b → a ≡ b
some_eq o a b e f = cc (e, f)

not_some : {A : Type 0} (o : Option A) (a : A) → o ≡ none → o ≡ some a → ⊥
not_some o a e f = cc (e, f)

pub returned_eq : {A : Type 0} (o : Outcome A) (a b : A) → o ≡ returned a → o ≡ returned b → a ≡ b
returned_eq o a b e f = cc (e, f)

module _ (j : Json) where
  open j use {Value, view, get_int, get_int64, get_int_cast, get_int64_cast}

  -- What is read of a member that stores an integer.
  converted-Yields :
      (get : Value → Outcome ℤ) (half : ℕ) (m : Value)
      → ((z : ℤ) → integer_of (view m) ≡ some z → get m ≡ returned (wrap half z))
      → is_number_integer (view m) ≡ true
      → Yields (λ z. (y : ℤ) × (integer_of (view m) ≡ some y) × (z ≡ wrap half y)) (get m)
  converted-Yields get half m cast i =
      let (y, e) = is_number_integer_lem (view m) i in
      subst (Yields (λ z. (y : ℤ) × (integer_of (view m) ≡ some y) × (z ≡ wrap half y)))
        (sym (cast y e))
        ((y, e, refl), λ b r. r.2 ∙ ap (wrap half) (some_eq (integer_of (view m)) r.0 y r.1 e))

  read_integer-Yields :
      (key : String) (get : Value → Outcome ℤ) (half : ℕ) (d : ℤ) (p : Value)
      → ((m : Value) (z : ℤ) → integer_of (view m) ≡ some z → get m ≡ returned (wrap half z))
      → Yields (IsInteger j half d (member key (view p))) (read_integer j key get d p)
  unfolding read_integer
  read_integer-Yields key get half d p cast = at (member key (view p))
    where
      at :
          (o : Option Value)
          → Yields (IsInteger j half d o) (elim o as (λ o. Outcome ℤ) [
            | none ↦ returned d
            | some m ↦
                if is_number_integer (view m)
                then get m
                else raised (some (key ⧺ " must be an integer."))
          ])
      at none = (refl, λ b e. e)
      at (some m) =
          test-Yields (IsInteger j half d (some m)) (is_number_integer (view m)) _ _
            (converted-Yields get half m (cast m))
            (λ n b r. cc (n, integer_of-some (view m) r.0 r.1))

  read_action-Yields :
      (p : Value) → Yields (IsAction j (member "onFailure" (view p))) (read_action j p)
  unfolding read_action
  read_action-Yields p = at (member "onFailure" (view p))
    where
      at :
          (o : Option Value)
          → Yields (IsAction j o) (elim o as (λ o. Outcome FailureAction) [
            | none ↦ returned FailureAction.stop
            | some m ↦ elim (text_of (view m)) [
              | none ↦ raised (some "onFailure must be a string.")
              | some s ↦ elim (action_of s) [
                | none ↦ raised (some "onFailure must be 'stop' or 'continue'.")
                | some a ↦ returned a
              ]
            ]
          ])
      at none = (refl, λ b e. e)
      at (some m) =
          option-Yields (IsAction j (some m)) (text_of (view m)) _ _ (λ n b r. not_some _ _ n r.1)
            (λ s e.
              option-Yields (IsAction j (some m)) (action_of s) _ _
                (λ n b r.
                  not_some (action_of s) b n
                    (subst (λ t. action_of t ≡ some b) (some_eq _ r.0 s r.1 e) r.2))
                (λ a f. (
                  (s, e, f),
                  λ b r.
                      some_eq (action_of s) b a
                        (subst (λ t. action_of t ≡ some b) (some_eq _ r.0 s r.1 e) r.2) f,
                )))

  read_policy-Yields : (p : Value) → Yields (IsPolicy j p) (read_policy j p)
  unfolding read_policy
  read_policy-Yields p =
      bind-Yields _ (IsPolicy j p) _ _
        (read_integer-Yields "maxAttempts" get_int half_int (pos 1) p get_int_cast)
        (λ a qa ua.
          bind-Yields _ (IsPolicy j p) _ _
            (read_integer-Yields "retryDelayMs" get_int64 half_int64 (pos 0) p get_int64_cast)
            (λ b qb ub.
              bind-Yields _ (IsPolicy j p) _ _
                (read_integer-Yields "timeoutMs" get_int64 half_int64 (pos 0) p get_int64_cast)
                (λ c qc uc.
                  bind-Yields _ (IsPolicy j p) _ _ (read_action-Yields p)
                    (λ d qd ud. (
                      record { attempts = qa; delay = qb; limit = qc; action = qd },
                      λ q r.
                          StepExecutionPolicy_eq q _ (ua _ r.attempts) (ub _ r.delay) (uc _ r.limit)
                            (ud _ r.action),
                    ))
                    (λ q r. (q.on_failure, r.action)))
                (λ q r. (q.timeout, r.limit)))
            (λ q r. (q.retry_delay, r.delay)))
        (λ q r. (q.max_attempts, r.attempts))

  policy_at-Reads :
      (location : String) (o : Option Value) → Reads (IsPolicyMember j o) (policy_at j location o)
  unfolding policy_at
  policy_at-Reads location none = (refl, λ b e. e)
  policy_at-Reads location (some p) =
      test-Reads (IsPolicyMember j (some p)) (is_object (view p)) _ _
        (λ y. at y (read_policy j p) (read_policy-Yields p)) (λ n. (refl, λ b r. cc (n, r.0)))
    where
      at :
          is_object (view p) ≡ true
          → (o : Outcome StepExecutionPolicy) → Yields (IsPolicy j p) o
          → Reads (IsPolicyMember j (some p)) (elim o as (λ o. Checked StepExecutionPolicy) [
            | returned policy ↦ accepted policy
            | raised what ↦
                fail "COMMAND_POLICY_SCHEMA_INVALID" (what_or "" what) (location ⧺ ":policy")
          ])
      at y (returned q) (r, u) = ((y, r), λ b s. u b s.1)
      at y (raised what) u = (refl, λ b s. u b s.1)

  pub parse_instrument-Reads :
      (location : String) (v : Value) → Reads (IsInstrument j v) (parse_instrument j location v)
  unfolding parse_instrument
  parse_instrument-Reads location v =
      option-Reads (IsInstrument j v) (text_member j "type" v) _ _
        (λ n. (refl, λ b r. not_some _ _ n r.device_type))
        (λ t e.
          option-Reads (IsInstrument j v) (text_member j "id" v) _ _
            (λ n. (refl, λ b r. not_some _ _ n r.id))
            (λ i f.
              option-Reads (IsInstrument j v) (object_member j "config" v) _ _
                (λ n. (refl, λ b r. not_some _ _ n r.configuration))
                (λ c g. (
                  record { device_type = e; id = f; configuration = g },
                  λ b r.
                      InstrumentDefinition_eq b _ (some_eq _ _ _ r.device_type e)
                        (some_eq _ _ _ r.id f) (some_eq _ _ _ r.configuration g),
                ))))

  pub parse_command-Reads :
      (location : String) (v : Value) → Reads (IsCommand j v) (parse_command j location v)
  unfolding parse_command
  parse_command-Reads location v =
      option-Reads (IsCommand j v) (integer_member j "stepId" v) _ _
        (λ n. (refl, λ b r. not_some _ _ n r.has_id))
        (λ id e.
          option-Reads (IsCommand j v) (text_member j "name" v) _ _
            (λ n. (refl, λ b r. not_some _ _ n r.name))
            (λ t f.
              option-Reads (IsCommand j v) (text_member j "instrument" v) _ _
                (λ n. (refl, λ b r. not_some _ _ n r.has_instrument))
                (λ i g.
                  option-Reads (IsCommand j v) (object_member j "params" v) _ _
                    (λ n. (refl, λ b r. not_some _ _ n r.parameters))
                    (λ ps h.
                      checked-Reads (IsPolicyMember j (member "policy" (view v))) (IsCommand j v)
                        (policy_at j location (member "policy" (view v))) _
                        (policy_at-Reads location (member "policy" (view v)))
                        (λ q p u. (
                          record {
                            id = id;
                            has_id = e;
                            step_id = refl;
                            name = f;
                            instrument = i;
                            has_instrument = g;
                            binding = refl;
                            parameters = h;
                            policy = p;
                          },
                          λ b r.
                              StepDefinition_eq b _
                                (r.step_id ∙ ap (identifier j) (some_eq _ _ _ r.has_id e))
                                (some_eq _ _ _ r.name f)
                                (r.binding ∙ ap instrument_of (some_eq _ _ _ r.has_instrument g))
                                (some_eq _ _ _ r.parameters h) (u b.policy r.policy),
                        ))
                        (λ b r. (b.policy, r.policy))))))
