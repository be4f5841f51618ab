-- ===== src/Printing.antt =====
-- What `serial::Serial` and `vga::VGA` write alike, in src/outputs/serial.cpp and
-- src/outputs/vga.cpp: strings, numbers by a stack of digits, and `kprintf`, over the `write_char` of
-- a device of type `S`. `none` stands for a fault: an access out of the stack, a missing argument,
-- or a device that does not answer within its fuel.
pub mod Digits
pub mod Stack
pub mod Numbers
pub mod Readback
pub mod Format
pub mod Plain
pub mod Render
pub mod Conversions
pub mod Directives
pub mod Rendered
pub mod Fits
mod Tests
use mathlib.Core.Option
use lkd.Prelude.{
  ℕ, zero, suc, ◌+◌, ◌-◌, ◌*◌, ◌/◌, ◌%◌, List, [], ◌∷◌, Option, none, some, Bool, ltb, ◌==◌,
  if◌then◌else◌, length, get_elem?, get_or, set, codes,
}

-- The namespace's `stack` and `stack_idx`, beside the device.
pub record Printer (S : Type 0) : Type 0 where
  pub device : S
  pub stack : List ℕ
  pub stack_idx : ℕ

abbrev pub stack_size : ℕ
stack_size = 256

abbrev pub M : Type 0 → Type 0 → Type 0
M S A = Printer S → Option (A × Printer S)

abbrev pub pure : {S A : Type 0} → A → M S A
pure a p = some (a, p)

abbrev pub fault : {S A : Type 0} → M S A
fault p = none

infixl 5 ◌>>=◌ ◌>>◌
abbrev pub ◌>>=◌ : {S A B : Type 0} → M S A → (A → M S B) → M S B
◌>>=◌ m f p = elim (m p) [ none ↦ none | some (a, p') ↦ f a p' ]

abbrev pub ◌>>◌ : {S B : Type 0} → M S (Unit {0}) → M S B → M S B
m >> k = m >>= λ _. k

-- `stack[stack_idx++] = d`
unfoldable pub push_stack : {S : Type 0} → ℕ → M S (Unit {0})
push_stack d p =
    if ltb p.stack_idx stack_size
    then some (tt, record p { stack = set p.stack p.stack_idx d; stack_idx = p.stack_idx + 1 })
    else none

-- `stack[--stack_idx]`
unfoldable pub pop_stack : {S : Type 0} → M S ℕ
pop_stack p =
    if p.stack_idx == 0
    then none
    else Option.map (λ d. (d, record p { stack_idx = p.stack_idx - 1 }))
        (get_elem? p.stack (p.stack_idx - 1))

-- The loop that divides `value` down to 0 and counts its digits. Twenty rounds are enough for the
-- digits of a 64-bit number in base 10 or 16.
unfoldable pub push_digits : {S : Type 0} → ℕ → ℕ → ℕ → ℕ → M S ℕ
push_digits zero base value digits p = none
push_digits (suc fuel) base value digits p =
    let rest = (push_stack (value % base) >> push_digits fuel base (value / base) (digits + 1)) p in
    if value == 0 then some (digits, p) else rest

abbrev pub digit_rounds : ℕ
digit_rounds = 20

-- What a variadic call passes: an `unsigned char` or `uint32_t`, a `uint64_t`, a string.
pub data Arg : Type 0 where
  word : ℕ → Arg
  long : ℕ → Arg
  text : List ℕ → Arg

-- `hex[d]`
abbrev pub hex_glyph : ℕ → ℕ
hex_glyph d = get_or (codes "0123456789ABCDEF") d 0

-- `'0' + d`
abbrev pub dec_glyph : ℕ → ℕ
dec_glyph d = b'0' + d

module _ {S : Type 0} (write_char : ℕ → S → Option S) where
  abbrev pub put : ℕ → M S (Unit {0})
  put ch p = Option.map (λ s. (tt, record p { device = s })) (write_char ch p.device)

  -- The bytes of a string up to its terminator.
  unfoldable pub write_bytes : List ℕ → M S (Unit {0})
  write_bytes [] = pure tt
  write_bytes (ch ∷ buf) = put ch >> write_bytes buf

  -- `write_str` returns how many it wrote.
  unfoldable pub write_str : List ℕ → M S ℕ
  unfolding write_bytes
  write_str buf = write_bytes buf >> pure (length buf)

  -- The loop of `write` at index `i`: the `count` is the caller's, and a terminator does not end it.
  unfoldable pub write_from : List ℕ → ℕ → ℕ → M S (Unit {0})
  write_from buf i zero = pure tt
  write_from buf i (suc rounds) = elim (get_elem? buf i) [
    | none ↦ fault
    | some ch ↦ put ch >> write_from buf (i + 1) rounds
  ]

  unfoldable pub write : List ℕ → ℕ → M S ℕ
  unfolding write_from
  write buf count = write_from buf 0 count >> pure count

  unfoldable pub write_repeated : ℕ → ℕ → M S (Unit {0})
  write_repeated ch zero = pure tt
  write_repeated ch (suc rounds) = put ch >> write_repeated ch rounds

  -- The last loop of both number printers: pop a digit and write its glyph.
  unfoldable pub write_digits : (ℕ → ℕ) → ℕ → M S (Unit {0})
  write_digits glyph zero = pure tt
  write_digits glyph (suc rounds) = pop_stack >>= λ d. put (glyph d) >> write_digits glyph rounds

  unfoldable pub print_dec : ℕ → M S (Unit {0})
  print_dec value =
      if value == 0
      then put b'0'
      else (push_digits digit_rounds 10 value 0 >>= λ digits. write_digits dec_glyph digits)

  unfoldable pub print_hex : ℕ → ℕ → M S (Unit {0})
  print_hex value bits = do
    digits ← push_digits digit_rounds 16 value 0
    _ ← write_str (codes "0x")
    write_repeated b'0' (bits / 4 - digits)
    write_digits hex_glyph digits
