-- ===== src/Gate1/Arguments/Laws.antt =====
-- What a successful parse of the arguments promises.
use xdna_cpp.Base.{
  ℕ, ◌+◌, ◌*◌, ◌-◌, ◌^◌, ◌<◌, ◌≡◌, refl, sym, Bool, true, false, Bytes, List, [], ◌∷◌, ◌++◌, Option,
  none, some, ◌⊎◌, inl, inr, ◌==◌, arith, Bool-cases,
}
use xdna_cpp.Base.Text.{is_empty}
use xdna_cpp.Gate1.Json.{trim, from_chars, decimal_string}
use xdna_cpp.Gate1.Arguments.{
  Gate1Options, Gate1ArgumentParse, Argument, help_flag, xclbin_option, elf_option,
  device_index_option, timeout_ms_option, kernel_option, unknown_argument, classify, text_of,
  store_device_index, store_timeout, store, failed, finish, last_argument, takes_value,
  parse_arguments, parse_gate1_arguments,
}

pub from_chars-lt : (value : ℕ) (text : Bytes) (n : ℕ) → from_chars value text ≡ some n → n < 2 ^ 32
unfolding from_chars
from_chars-lt value [] n h = ground (arith, h)
from_chars-lt value (c ∷ text) n h = ground (arith, h, from_chars-lt (value * 10 + (c - 48)) text n)

-- A number that `decimal_string` returns is a `uint32_t`.
pub decimal_string-lt : (text : Bytes) (n : ℕ) → decimal_string text ≡ some n → n < 2 ^ 32
unfolding decimal_string
decimal_string-lt text n h = ground (arith, h, from_chars-lt 0 (trim text) n)

-- The numbers of the options are those of their types, and the time limit is positive.
pub record IsUsable (options : Gate1Options) : Type 0 where
  pub timeout_positive : 0 < options.timeout_ms
  pub timeout_word : options.timeout_ms < 2 ^ 32
  pub index_word : options.device_index < 2 ^ 32

-- The parse succeeds exactly when it leaves no error; the options stay usable; without `--help`, success means
-- that there is an xclbin and a kernel to run.
pub record IsParse (result : Gate1ArgumentParse) : Type 0 where
  pub no_error : result.ok ≡ is_empty result.error
  pub usable : IsUsable result.options
  pub complete :
      result.ok ≡ true
      → result.help ≡ false
      → (is_empty result.options.xclbin ≡ false) × (is_empty result.options.kernel ≡ false)

-- An error has a text, and new options are usable.
abbrev IsStored : Bytes ⊎ Gate1Options → Type 0
IsStored (inl error) = is_empty error ≡ false
IsStored (inr options) = IsUsable options

store_timeout-IsStored :
    (options : Gate1Options) (parsed : Option ℕ)
    → ((n : ℕ) → parsed ≡ some n → n < 2 ^ 32)
    → IsUsable options
    → IsStored (store_timeout options parsed)
store_timeout-IsStored options none word usable = refl
store_timeout-IsStored options (some n) word usable = elim (Bool-cases (n == 0)) [
  | inl zero ↦ rw zero refl
  | inr positive ↦ rw positive (record {
    timeout_positive = ground (arith, positive);
    timeout_word = word n refl;
    index_word = usable.index_word;
  })
]

store_device_index-IsStored :
    (options : Gate1Options) (parsed : Option ℕ)
    → ((n : ℕ) → parsed ≡ some n → n < 2 ^ 32)
    → IsUsable options
    → IsStored (store_device_index options parsed)
store_device_index-IsStored options none word usable = refl
store_device_index-IsStored options (some n) word usable = record {
  timeout_positive = usable.timeout_positive;
  timeout_word = usable.timeout_word;
  index_word = word n refl;
}

same_numbers :
    (options : Gate1Options) (xclbin elf kernel : Bytes)
    → IsUsable options
    → IsUsable (record options { xclbin = xclbin; elf = elf; kernel = kernel })
same_numbers options xclbin elf kernel usable = record {
  timeout_positive = usable.timeout_positive;
  timeout_word = usable.timeout_word;
  index_word = usable.index_word;
}

store-IsStored :
    (kind : Argument) (value : Bytes) (options : Gate1Options)
    → IsUsable options
    → IsStored (store kind value options)
store-IsStored xclbin_option value options usable =
    same_numbers options value options.elf options.kernel usable
store-IsStored elf_option value options usable =
    same_numbers options options.xclbin value options.kernel usable
store-IsStored kernel_option value options usable =
    same_numbers options options.xclbin options.elf value usable
store-IsStored help_flag value options usable = usable
store-IsStored unknown_argument value options usable = usable
store-IsStored device_index_option value options usable =
    store_device_index-IsStored options (decimal_string value) (decimal_string-lt value) usable
store-IsStored timeout_ms_option value options usable =
    store_timeout-IsStored options (decimal_string value) (decimal_string-lt value) usable

failed-IsParse :
    (options : Gate1Options) (error : Bytes)
    → is_empty error ≡ false
    → IsUsable options
    → IsParse (failed options error)
failed-IsParse options error h usable = record {
  no_error = sym h;
  usable = usable;
  complete = λ a. ground (arith, a);
}

finish-IsParse : (options : Gate1Options) → IsUsable options → IsParse (finish options)
finish-IsParse options usable = elim (Bool-cases (is_empty options.xclbin)) [
  | inl e ↦ rw e (failed-IsParse options _ refl usable)
  | inr x ↦ elim (Bool-cases (is_empty options.kernel)) [
    | inl e ↦ rw (x, e) (failed-IsParse options _ refl usable)
    | inr k ↦ rw (x, k) (record { no_error = refl; usable = usable; complete = λ _ _. (x, k) })
  ]
]

not_empty : (text : Bytes) (c : ℕ) (rest : Bytes) → is_empty (text ++ c ∷ rest) ≡ false
not_empty [] c rest = refl
not_empty (t ∷ text) c rest = refl

last_argument-IsParse :
    (options : Gate1Options) (argument : Bytes) (kind : Argument)
    → IsUsable options
    → IsParse (last_argument options argument kind)
last_argument-IsParse options argument help_flag usable = record {
  no_error = refl;
  usable = usable;
  complete = λ _ h. ground (arith, h);
}
last_argument-IsParse options argument unknown_argument usable =
    failed-IsParse options _ refl usable
last_argument-IsParse options argument xclbin_option usable =
    failed-IsParse options _ (not_empty argument _ _) usable
last_argument-IsParse options argument elf_option usable =
    failed-IsParse options _ (not_empty argument _ _) usable
last_argument-IsParse options argument device_index_option usable =
    failed-IsParse options _ (not_empty argument _ _) usable
last_argument-IsParse options argument timeout_ms_option usable =
    failed-IsParse options _ (not_empty argument _ _) usable
last_argument-IsParse options argument kernel_option usable =
    failed-IsParse options _ (not_empty argument _ _) usable

by_test :
    (b : Bool) (x y : Gate1ArgumentParse)
    → IsParse x
    → IsParse y
    → IsParse (elim b [ true ↦ x | false ↦ y ])
by_test true x y hx hy = hx
by_test false x y hx hy = hy

by_store :
    (options : Gate1Options) (stored : Bytes ⊎ Gate1Options)
    (next : Gate1Options → Gate1ArgumentParse)
    → IsStored stored
    → IsUsable options
    → ((options' : Gate1Options) → IsUsable options' → IsParse (next options'))
    → IsParse (elim stored [ inl error ↦ failed options error | inr options' ↦ next options' ])
by_store options (inl error) next h usable go = failed-IsParse options error h usable
by_store options (inr options') next h usable go = go options' h

parse_arguments-IsParse :
    (options : Gate1Options) (arguments : List (Option Bytes))
    → IsUsable options
    → IsParse (parse_arguments options arguments)
unfolding parse_arguments
parse_arguments-IsParse options [] usable = finish-IsParse options usable
parse_arguments-IsParse options (argument ∷ []) usable = last_argument-IsParse options _ _ usable
parse_arguments-IsParse options (argument ∷ value ∷ rest) usable =
    let kind = classify (text_of argument) in
    by_test (takes_value kind) _ _
      (by_test (is_empty (text_of value)) _ _
        (failed-IsParse options _ (not_empty (text_of argument) _ _) usable)
        (by_store options (store kind (text_of value) options) _
          (store-IsStored kind (text_of value) options usable) usable
          (λ options' usable'. parse_arguments-IsParse options' rest usable')))
      (last_argument-IsParse options (text_of argument) kind usable)

-- Whatever the arguments, from usable defaults `parse_gate1_arguments` succeeds exactly when it
-- leaves no error; its options stay usable (numbers of 32 bits, a positive time limit); and when it
-- succeeds without `--help`, the xclbin and the kernel are not empty.
pub parse_gate1_arguments-IsParse :
    (argv : List (Option Bytes)) (options : Gate1Options)
    → IsUsable options
    → IsParse (parse_gate1_arguments argv options)
unfolding parse_gate1_arguments
parse_gate1_arguments-IsParse [] options usable = finish-IsParse options usable
parse_gate1_arguments-IsParse (program ∷ arguments) options usable =
    parse_arguments-IsParse options arguments usable
