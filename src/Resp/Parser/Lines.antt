-- ===== src/Resp/Parser/Lines.antt =====
-- The first line of a message (src/cpp/server/request_handler/resp_parser.cpp): where it ends, and the number
-- in it.
use chrono_cache.Shared.{
  ℕ, suc, ◌-◌, ◌≡◌, refl, ap, ◌&&◌, Option, none, some, [], ◌∷◌, ◌++◌, length, ◌==◌, arith,
  Bool-cases, Option-cases, inl, inr, le→leb,
}
use chrono_cache.Shared.Int.{ℤ}
use chrono_cache.Shared.Run.{Run, ok, ◌>>=◌}
use chrono_cache.Shared.Text.{Bytes, take-append}
use chrono_cache.Resp.Number.{parse_string_as_int}
use chrono_cache.Resp.Number.Laws.{AreDigits}
use chrono_cache.Resp.Value.{RespValue}
use chrono_cache.Resp.Parser.{find_crlf, substr}

-- A line without a line's end inside is found whole.
pub find_crlf-append :
    (s rest : Bytes) → find_crlf s ≡ none → find_crlf (s ++ 13 ∷ 10 ∷ rest) ≡ some (length s)
unfolding find_crlf
find_crlf-append [] rest e = refl
find_crlf-append (c ∷ []) rest e = elim (Bool-cases (c == 13)) [
  | inl h ↦ rw h refl
  | inr h ↦ rw h refl
]
find_crlf-append (c ∷ d ∷ s) rest e = elim (Bool-cases (c == 13 && d == 10)) [
  | inl h ↦ absurd (ground (arith, e, h))
  | inr h ↦ elim (Option-cases (find_crlf (d ∷ s))) [
    | inl k ↦ rw (h, find_crlf-append (d ∷ s) rest k) refl
    | inr (j, k) ↦ absurd (ground (arith, e, h, k))
  ]
]

-- A text of digits has no line's end, nor behind a byte that is none.
pub digits_crlf : (c : ℕ) (s : Bytes) → AreDigits s → find_crlf (c ∷ s) ≡ none
unfolding find_crlf
digits_crlf c [] d = refl
digits_crlf c (x ∷ s) (low, high, d) = rw (digits_crlf x s d) (ground (arith, low))

module _ (c : ℕ) (t rest : Bytes) (clear : find_crlf (c ∷ t) ≡ none) where
  pub line_end : find_crlf (c ∷ t ++ 13 ∷ 10 ∷ rest) ≡ some (suc (length t))
  line_end = find_crlf-append (c ∷ t) rest clear

  pub line_text : substr (c ∷ t ++ 13 ∷ 10 ∷ rest) 1 (suc (length t) - 1) ≡ ok t
  unfolding substr
  line_text =
      let back : suc (length t) - 1 ≡ length t = omega arith in
      rw (le→leb 1 (suc (length (t ++ 13 ∷ 10 ∷ rest))) (omega arith), back)
        (ap ok (take-append t (13 ∷ 10 ∷ rest)))

  -- The number in the first line.
  pub line_number :
      (value : Option ℤ) (rest_of : Option ℤ → Run (Option RespValue))
      → parse_string_as_int t ≡ ok value
      → (do
        text ← substr (c ∷ t ++ 13 ∷ 10 ∷ rest) 1 (suc (length t) - 1)
        v ← parse_string_as_int text
        rest_of v)
        ≡ rest_of value
  line_number value rest_of e = rw (line_text, e) refl
