-- ===== src/Scan/Arguments/Static/Samples.antt =====
-- A call with two arguments.
use pogo.Prelude.{◌≡◌, refl, [], ◌∷◌, All, Bytes, codes}
use pogo.Scan.Arguments.Static.{split_static_arguments, IsBetween, split_static_arguments-IsBetween}

abbrev static_text : Bytes
static_text = codes "(a, (b, c) )"

static_found :
    split_static_arguments static_text (record { start = 0; end = 12 })
    ≡ record { start = 1; end = 2 } ∷ record { start = 4; end = 10 } ∷ []
unfolding split_static_arguments
static_found = refl

split_static_arguments-IsBetween_example :
    All (IsBetween 1 11) (split_static_arguments static_text (record { start = 0; end = 12 }))
split_static_arguments-IsBetween_example =
    split_static_arguments-IsBetween static_text (record { start = 0; end = 12 })
