-- ===== src/BookClient/Stdio.antt =====
-- PCom3/client.c: what the client uses of the input and output of the C library.
use pcom_assignments.Prelude.{
  ℕ, zero, suc, ◌+◌, ◌-◌, ◌*◌, ◌/◌, ◌%◌, ◌^◌, [], ◌∷◌, Bool, true, false, ◌&&◌, Option, none, some,
  ◌==◌, ltb, leb, if◌then◌else◌,
}
use pcom_assignments.Prelude.Int.{ℤ, pos, negsuc}
use pcom_assignments.Prelude.Run.{Run, done, fault, overflow}
use pcom_assignments.Prelude.Texts.{Text, cstr, skip_spaces}

-- The digits of a number in front of a text; 20 of them are enough below 2 ^ 64.
unfoldable pub digits : (fuel n : ℕ) → Text → Text
digits zero n rest = rest
digits (suc fuel) n rest =
    let more = digits fuel (n / 10) ((48 + n % 10) ∷ rest) in
    if n / 10 == 0 then (48 + n % 10) ∷ rest else more

-- "%ld" and "%d".
unfoldable pub decimal : ℕ → Text
unfolding digits
decimal n = digits 20 n []

unfoldable pub decimal_ℤ : ℤ → Text
decimal_ℤ (pos n) = decimal n
decimal_ℤ (negsuc n) = 45 ∷ decimal (suc n)

-- `snprintf` of a text to its length drops the last character.
abbrev pub drop_last : Text → Text
drop_last [] = []
drop_last (c ∷ []) = []
drop_last (c ∷ d ∷ s) = c ∷ drop_last (d ∷ s)

-- The characters up to a line feed, that included, and at most `left`; the input behind them.
abbrev pub take_line : (left : ℕ) → Text → Text × Text
take_line zero s = ([], s)
take_line (suc left) [] = ([], [])
take_line (suc left) (c ∷ s) =
    let rest = take_line left s in if c == 10 then (c ∷ [], s) else (c ∷ rest.0, rest.1)

-- `fgets(line_buf, size, stdin)`: at the end of the input the buffer is left as it is.
abbrev pub fgets : (size : ℕ) → Option Text → Text → Option Text × Text
fgets size line_buf [] = (line_buf, [])
fgets size line_buf (c ∷ s) =
    let line = take_line (size - 1) (c ∷ s) in (some (cstr line.0), line.1)

abbrev pub is_digit : ℕ → Bool
is_digit c = leb 48 c && leb c 57

abbrev pub read_digits : (value : ℕ) → Text → ℕ × Text
read_digits value [] = (value, [])
read_digits value (c ∷ s) =
    let more = read_digits (10 * value + (c - 48)) s in if is_digit c then more else (value, c ∷ s)

abbrev pub starts_digit : Text → Bool
starts_digit [] = false
starts_digit (c ∷ s) = is_digit c

abbrev pub signed : (minus : Bool) → ℕ → ℤ
signed false n = pos n
signed true zero = pos 0
signed true (suc n) = negsuc n

-- The digits of "%d"; C leaves a value undefined that is no int.
abbrev pub scan_digits : (minus : Bool) → Text → Run (Option ℤ × Text)
scan_digits minus s =
    if starts_digit s
    then (let (n, rest) = read_digits 0 s in
        if ltb n (if minus then 2 ^ 31 + 1 else 2 ^ 31)
        then done (some (signed minus n), rest)
        else fault overflow)
    else done (none, s)

abbrev pub scan_sign : Text → Run (Option ℤ × Text)
scan_sign [] = done (none, [])
scan_sign (c ∷ s) =
    if c == 45
    then scan_digits true s
    else if c == 43
    then scan_digits false s
    else scan_digits false (c ∷ s)

-- `scanf("%d", ...)`, with `none` where nothing is stored.
abbrev pub scan_int : Text → Run (Option ℤ × Text)
scan_int input = scan_sign (skip_spaces input)
