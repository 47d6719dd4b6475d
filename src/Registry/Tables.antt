-- ===== src/Registry/Tables.antt =====
-- What a lookup finds in a longer table.
use artest_cli.Base.{◌≡◌, false, none, some, [], ◌∷◌, ◌++◌, String, str_eq, eq_iff, arith}
use artest_cli.Registry.Creators.{Table, holds, lookup}

pub lookup-append :
    {A : Type 0} (k : String) (x : A) (t u : Table A)
    → lookup k t ≡ some x
    → lookup k (t ++ u) ≡ some x
lookup-append k x [] u e = cc
lookup-append k x ((j, a) ∷ t) u e = ground (arith, lookup-append k x t u)

pub lookup-snoc :
    {A : Type 0} (k : String) (x : A) (t : Table A)
    → holds k t ≡ false
    → lookup k (t ++ (k, x) ∷ []) ≡ some x
lookup-snoc k x [] e = ground (arith, eq_iff k k)
lookup-snoc k x ((j, a) ∷ t) e = ground (arith, lookup-snoc k x t)

pub lookup_absent : {A : Type 0} (k : String) (t : Table A) → holds k t ≡ false → lookup k t ≡ none
lookup_absent k [] h = cc
lookup_absent k ((j, a) ∷ t) h = ground (arith, lookup_absent k t)

pub lookup_other :
    {A : Type 0} (k j : String) (x : A) (t : Table A)
    → str_eq j k ≡ false
    → lookup k (t ++ (j, x) ∷ []) ≡ lookup k t
lookup_other k j x [] n = rw n cc
lookup_other k j x ((i, a) ∷ t) n = ground (arith, lookup_other k j x t)
