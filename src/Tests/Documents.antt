-- ===== src/Tests/Documents.antt =====
-- JSON documents of a simple kind, as an instance of the interface.
use artest_cli.Base.{ℕ, ◌≡◌, Bool, true, false, some, List, [], ◌∷◌, String, ltb, ◌==◌}
use artest_cli.Base.Int.{ℤ, pos, negsuc, wrap, half_int, half_int64}
use artest_cli.Diagnostics.{Outcome, returned, raised}
use artest_cli.Json.{integer_of, Json, View, boolean, signed, unsigned, text, array, object, null}

mutual
  pub data Doc : Type 0 where
    nothing : Doc
    flag : Bool → Doc
    number : ℕ → Doc
    minus : ℕ → Doc
    word : String → Doc
    row : Docs → Doc
    dict : Entries → Doc

  pub data Docs : Type 0 where
    stop : Docs
    item : Doc → Docs → Docs

  pub data Entries : Type 0 where
    close : Entries
    entry : String → Doc → Entries → Entries

abbrev docs : Docs → List Doc
docs stop = []
docs (item d ds) = d ∷ docs ds

abbrev pairs : Entries → List (String × Doc)
pairs close = []
pairs (entry k d es) = (k, d) ∷ pairs es

abbrev pub kind_of : Doc → View Doc (Unit {0})
kind_of nothing = null
kind_of (flag b) = boolean b
kind_of (number n) = unsigned n
kind_of (minus n) = signed (negsuc n)
kind_of (word s) = text s
kind_of (row ds) = array (docs ds)
kind_of (dict es) = object (pairs es)

abbrev same : Doc → Doc → Bool
same (number a) (number b) = a == b
same (flag true) (flag true) = true
same (flag false) (flag false) = true
same _ _ = false

abbrev below : Doc → Doc → Bool
below (number a) (number b) = ltb a b
below (minus a) (number b) = true
below (minus a) (minus b) = ltb b a
below _ _ = false

abbrev size : Doc → Outcome ℕ
size (number n) = returned n
size _ = raised (some "type_error")

abbrev integer : ℕ → Doc → Outcome ℤ
integer half (number n) = returned (wrap half (pos n))
integer half (minus n) = returned (wrap half (negsuc n))
integer half _ = raised (some "type_error")

pub integer_cast :
    (half : ℕ) (v : Doc) (z : ℤ)
    → integer_of (kind_of v) ≡ some z
    → integer half v ≡ returned (wrap half z)
integer_cast half nothing z e = cc
integer_cast half (flag b) z e = cc
integer_cast half (number m) z e = cc
integer_cast half (minus m) z e = cc
integer_cast half (word s) z e = cc
integer_cast half (row ds) z e = cc
integer_cast half (dict es) z e = cc

pub size_unsigned : (v : Doc) (n : ℕ) → kind_of v ≡ unsigned n → size v ≡ returned n
size_unsigned nothing n e = cc
size_unsigned (flag b) n e = cc
size_unsigned (number m) n e = cc
size_unsigned (minus m) n e = cc
size_unsigned (word s) n e = cc
size_unsigned (row ds) n e = cc
size_unsigned (dict es) n e = cc

pub size_signed : (v : Doc) (n : ℕ) → kind_of v ≡ signed (pos n) → size v ≡ returned n
size_signed nothing n e = cc
size_signed (flag b) n e = cc
size_signed (number m) n e = cc
size_signed (minus m) n e = cc
size_signed (word s) n e = cc
size_signed (row ds) n e = cc
size_signed (dict es) n e = cc

-- The documents of the tests have no text whose length matters.
abbrev pub documents : Json
documents = record {
  Value = Doc;
  Float = Unit {0};
  view = kind_of;
  equal = same;
  less = below;
  greater = λ a b. below b a;
  utf8 = λ s. [];
  get_size = size;
  get_int = integer half_int;
  get_int64 = integer half_int64;
  get_uint64 = size;
  get_size_unsigned = size_unsigned;
  get_size_signed = size_signed;
  get_int_cast = integer_cast half_int;
  get_int64_cast = integer_cast half_int64;
}
