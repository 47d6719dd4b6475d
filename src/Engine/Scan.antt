-- ===== src/Engine/Scan.antt =====
-- `CatalogPackage` and `CatalogScan` of Extensions/ExtensionCatalog.h and CatalogSnapshot.cpp in
-- source/ARTestEngine: what the engine reads of a package, and what it makes of a scan.
use artest_cli.Base.{◌&&◌, not, Bool, ℕ, List, [], ◌∷◌, ◌++◌, map, all, String, ◌⧺◌, to_string}
use artest_cli.Catalog.Components.{ComponentDescriptor}
use artest_cli.Diagnostics.{Diagnostic, contains_errors}

pub record CatalogPackage (J : Type 0) : Type 0 where
  pub manifest_text : String
  pub content_sha256 : String
  pub components : List (ComponentDescriptor J)
  pub diagnostics : List Diagnostic

pub record CatalogScan (J : Type 0) : Type 0 where
  pub root : String
  pub packages : List (CatalogPackage J)
  pub diagnostics : List Diagnostic

-- Every text with its length before it; `size` is the number of its bytes.
abbrev joined : (String → ℕ) → List String → String
joined size [] = ""
joined size (t ∷ ts) = (to_string (size t) ⧺ ":" ⧺ t) ⧺ joined size ts

module _ {J : Type 0} where
  abbrev gather : {A : Type 0} → (CatalogPackage J → List A) → List (CatalogPackage J) → List A
  gather f [] = []
  gather f (p ∷ ps) = f p ++ gather f ps

  -- `Components`.
  unfoldable pub components : CatalogScan J → List (ComponentDescriptor J)
  components s = gather (λ p. p.components) s.packages

  -- `IsValid`.
  abbrev pub is_valid : CatalogScan J → Bool
  is_valid s =
      not (contains_errors s.diagnostics)
      && all (λ p. not (contains_errors p.diagnostics)) s.packages

  -- The diagnostics of the scan and then those of its packages.
  abbrev pub collected : CatalogScan J → List Diagnostic
  collected s = s.diagnostics ++ gather (λ p. p.diagnostics) s.packages

  -- The texts that the fingerprint pins; `dump` is the library's.
  abbrev schema_texts : (J → String) → List (ComponentDescriptor J) → List String
  schema_texts dump [] = []
  schema_texts dump (c ∷ cs) = map (λ b. dump b.document) c.schemas ++ schema_texts dump cs

  abbrev pinned : (J → String) → CatalogPackage J → List String
  pinned dump p = p.manifest_text ∷ p.content_sha256 ∷ schema_texts dump p.components

  -- `Fingerprint`.
  unfoldable pub fingerprint : (J → String) → (String → ℕ) → CatalogScan J → String
  fingerprint dump size s = joined size (s.root ∷ gather (pinned dump) s.packages)
