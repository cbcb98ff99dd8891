-- ===== src/Strings/Tests.antt =====
-- The theorems on memory and texts at short texts and ranges that overlap.
use valerioedx.Base.{◌≡◌, ◌||◌, ◌==◌, if◌then◌else◌, some, arith}
use valerioedx.Strings.{Memory, memmove}
use valerioedx.Strings.Moves.{moved, memmove_lem}
use valerioedx.Strings.Text.{IsText, chars, strcmp}
use valerioedx.Strings.Text.Compare.{dictionary, strcmp_lem}

-- "ab" at 10, "abc" at 20, zeros elsewhere.
abbrev two_texts : Memory
two_texts a =
    if (a == 10) || (a == 20)
    then b'a'
    else if (a == 11) || (a == 21)
    then b'b'
    else if a == 22
    then b'c'
    else 0

memmove_example : memmove 11 10 2 two_texts ≡ moved 11 10 2 two_texts
memmove_example = memmove_lem 11 10 2 two_texts

short-IsText : IsText two_texts 10 2
short-IsText = record { inside = λ i h. ground arith; ended = omega arith }

long-IsText : IsText two_texts 20 3
long-IsText = record { inside = λ i h. ground arith; ended = omega arith }

strcmp_example :
    strcmp 99 5 10 20 two_texts ≡ some (dictionary (chars two_texts 10 2) (chars two_texts 20 3))
strcmp_example =
    strcmp_lem 99 5 10 20 2 3 two_texts (omega arith) (omega arith) short-IsText long-IsText
      (omega arith)
