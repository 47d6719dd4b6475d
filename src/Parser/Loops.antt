-- ===== src/Parser/Loops.antt =====
-- The loops of the parser over instruments and commands.
use artest_cli.Base.{ℕ, suc, ◌≡◌, refl, true, false, List, [], ◌∷◌, ◌++◌, String, ◌⧺◌, to_string}
use artest_cli.Compiler.Steps.{Checked, accepted, rejected}
use artest_cli.Diagnostics.{Diagnostic, contains_errors, contains_errors-append}
use artest_cli.Parser.Denotes.{Pairwise}
use artest_cli.Parser.Reads.{Reads}
use artest_cli.Parser.Parse.{parse_all, at_source}

module _ {V A : Type 0} (R : V → A → Type 0) where
  -- What all readings of a list come to.
  abbrev pub Lists : List V → List Diagnostic → List A → Type 0
  Lists vs ds parsed =
      (contains_errors ds ≡ false
        → Pairwise R vs parsed × ((bs : List A) → Pairwise R vs bs → bs ≡ parsed))
      × (contains_errors ds ≡ true → (bs : List A) → Pairwise R vs bs → ⊥)

  Lists-cons :
      (v : V) (vs : List V) (ds : List Diagnostic) (parsed : List A) (x : Checked A)
      → Reads (R v) x
      → Lists vs ds parsed
      → let (es, bs) = elim x as (λ x. List Diagnostic × List A) [
        | accepted a ↦ (ds, a ∷ parsed)
        | rejected es ↦ (es ++ ds, parsed)
      ] in
        Lists (v ∷ vs) es bs
  Lists-cons v vs ds parsed (accepted a) (r, u) (good, bad) =
      ((λ e. ((r, (good e).0), same e)), none_fits)
    where
      same : contains_errors ds ≡ false → (bs : List A) → Pairwise R (v ∷ vs) bs → bs ≡ a ∷ parsed
      same e [] p = absurd p
      same e (b ∷ bs) p = cc (u b p.0, (good e).1 bs p.1)

      none_fits : contains_errors ds ≡ true → (bs : List A) → Pairwise R (v ∷ vs) bs → ⊥
      none_fits e [] p = p
      none_fits e (b ∷ bs) p = bad e bs p.1
  Lists-cons v vs ds parsed (rejected es) (e, u) l =
      ((λ n. cc (e, n, contains_errors-append es ds)), none_fits)
    where
      none_fits : contains_errors (es ++ ds) ≡ true → (bs : List A) → Pairwise R (v ∷ vs) bs → ⊥
      none_fits n [] p = p
      none_fits n (b ∷ bs) p = u b p.0

  pub parse_all-Lists :
      (parse : String → V → Checked A)
      → ((location : String) (v : V) → Reads (R v) (parse location v))
      → (source name : String) (i : ℕ) (vs : List V)
      → let (ds, parsed) = parse_all parse source name i vs in Lists vs ds parsed
  unfolding parse_all
  parse_all-Lists parse reads source name i [] = ((λ e. (tt, same)), λ e. cc (e))
    where
      same : (bs : List A) → Pairwise R [] bs → bs ≡ []
      same [] p = refl
      same (b ∷ bs) p = absurd p
  parse_all-Lists parse reads source name i (v ∷ vs) =
      let (ds, parsed) = parse_all parse source name (suc i) vs in
      Lists-cons v vs ds parsed (parse (at_source source (name ⧺ "[" ⧺ to_string i ⧺ "]")) v)
        (reads _ v) (parse_all-Lists parse reads source name (suc i) vs)
