-- ===== src/Session/Report/Truncate.antt =====
-- `wg_session_get_uapi` of src/wg_session.c keeps to its buffer, and always returns the full length.
use polar_wg_app.Common.{
  ℕ, zero, suc, ◌+◌, ◌-◌, ◌≤◌, ◌≡◌, refl, ap, ◌∙◌, List, [], ◌∷◌, ◌++◌, if◌then◌else◌, length, take,
  arith, min, length-append, length-take, ltb,
}
use native.Mathlib.Decide.{dec_lt}
use mathlib.Core.List.{append-nil, append_assoc}
use polar_wg_app.Session.Types.{Session}
use polar_wg_app.Session.Host.{Net}
use polar_wg_app.Session.Report.{Sink, append_fmt, append_all, uapi_lines, get_uapi}

unfoldable pub concat : List (List ℕ) → List ℕ
concat [] = []
concat (t ∷ ts) = t ++ concat ts

take-append-ge :
    (n : ℕ) (xs ys : List ℕ) → length xs ≤ n → take n (xs ++ ys) ≡ xs ++ take (n - length xs) ys
take-append-ge n [] ys h = ap (λ k. take k ys) (omega arith)
take-append-ge zero (x ∷ xs) ys h = absurd (omega arith)
take-append-ge (suc n) (x ∷ xs) ys h =
    ap (◌∷◌ x) (take-append-ge n xs ys (omega arith) ∙ ap (λ k. xs ++ take k ys) (omega arith))

take-append-le : (n : ℕ) (xs ys : List ℕ) → n ≤ length xs → take n (xs ++ ys) ≡ take n xs
take-append-le zero xs ys h = refl
take-append-le (suc n) [] ys h = absurd (omega arith)
take-append-le (suc n) (x ∷ xs) ys h = ap (◌∷◌ x) (take-append-le n xs ys (omega arith))

take-all : (n : ℕ) (xs : List ℕ) → length xs ≤ n → take n xs ≡ xs
take-all zero [] h = refl
take-all (suc n) [] h = refl
take-all zero (x ∷ xs) h = absurd (omega arith)
take-all (suc n) (x ∷ xs) h = ap (◌∷◌ x) (take-all n xs (omega arith))

take-nil : (n : ℕ) → take {A = ℕ} n [] ≡ []
take-nil zero = refl
take-nil (suc n) = refl

-- The room that `append_fmt` leaves after a text.
room_after : (c : ℕ) (t : List ℕ) → ℕ
room_after c t = if ltb (length t) c then c - length t else if ltb 0 c then 1 else c

take-room_after :
    (c : ℕ) (t r : List ℕ) → take (c - 1) t ++ take (room_after c t - 1) r ≡ take (c - 1) (t ++ r)
unfolding room_after
take-room_after c t r = elim (dec_lt (length t) c) [
  | yes h ↦
      ground (arith, take-all (c - 1) t (omega arith), take-append-ge (c - 1) t r (omega arith))
  | no h ↦ ground (arith, append-nil (take (c - 1) t), take-append-le (c - 1) t r (omega arith))
]

-- The texts `ts` still to come fit the room left as far as `cap - 1` bytes go.
append_all-lem :
    (ts : List (List ℕ)) (s : Sink)
    → ((append_all ts s).text ≡ s.text ++ take (s.cap - 1) (concat ts))
      × ((append_all ts s).written ≡ s.written + length (concat ts))
unfolding append_all append_fmt concat room_after
append_all-lem [] s = (rw (take-nil, append-nil), omega arith)
append_all-lem (t ∷ ts) s =
    let (e, n) = append_all-lem ts (append_fmt t s) in
    (
      e ∙ append_assoc s.text _ _ ∙ ap (◌++◌ s.text) (take-room_after s.cap t (concat ts)),
      omega (arith, n, length-append t (concat ts)),
    )

take-min : (n : ℕ) (xs : List ℕ) → take (min n (length xs)) (take n xs) ≡ take n xs
take-min n xs = take-all _ (take n xs) (omega (arith, length-take n xs))

abbrev pub empty_sink : ℕ → Sink
empty_sink buf_len = record { text = []; cap = buf_len; written = 0 }

-- Whatever the size of the buffer, `wg_session_get_uapi` leaves in it the longest prefix of the
-- report that fits with a NUL behind it, and returns the length of the whole report; on the way
-- `append_fmt` never writes more than the size of the buffer less one.
pub get_uapi-prefix :
    (N : Net) (s : Session) (buf_len : ℕ)
    → (get_uapi N s buf_len
        ≡ (take (buf_len - 1) (concat (uapi_lines N s)), length (concat (uapi_lines N s))))
      × (length (append_all (uapi_lines N s) (empty_sink buf_len)).text ≤ buf_len - 1)
unfolding get_uapi
get_uapi-prefix N s buf_len =
    let all = concat (uapi_lines N s) in
    let sink = append_all (uapi_lines N s) (empty_sink buf_len) in
    let (e, n) = append_all-lem (uapi_lines N s) (empty_sink buf_len) in
    let n' : sink.written ≡ length all = omega (arith, n) in
    (
      ground (arith, e, n', take-min (buf_len - 1) all),
      rw e (omega (arith, length-take (buf_len - 1) all)),
    )
