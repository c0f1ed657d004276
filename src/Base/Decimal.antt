-- ===== src/Base/Decimal.antt =====
-- `std::to_string` and `std::hex` of an unsigned integer.
use xdna_cpp.Base.Common.{
  ℕ, zero, suc, ◌+◌, ◌-◌, ◌/◌, ◌%◌, true, false, Bytes, [], ◌∷◌, ◌==◌, ltb, if◌then◌else◌,
}

-- The digit of a value below 16.
abbrev pub digit : ℕ → ℕ
digit d = if ltb d 10 then b'0' + d else b'a' + d - 10

-- The digits in front of `behind`; the fuel is the number of digits that are left.
unfoldable pub digits_before : (base fuel n : ℕ) → (behind : Bytes) → Bytes
digits_before base zero n behind = behind
digits_before base (suc fuel) n behind =
    let behind' = digit (n % base) ∷ behind in
    elim (n / base == 0) [ true ↦ behind' | false ↦ digits_before base fuel (n / base) behind' ]

-- A 64-bit number has at most 20 decimal digits.
unfoldable pub to_string : ℕ → Bytes
to_string n = digits_before 10 20 n []

unfoldable pub to_hex : ℕ → Bytes
to_hex n = digits_before 16 16 n []
