-- ===== src/Gate1/Arguments.antt =====
-- `parse_gate1_arguments` of src/xdna-gate1.cpp, with the options of include/xdna/gate1.h.
pub mod Laws
use xdna_cpp.Base.{
  ℕ, Bool, true, false, ◌||◌, Bytes, List, [], ◌∷◌, ◌++◌, Option, none, some, ◌⊎◌, inl, inr, ◌==◌,
  if◌then◌else◌,
}
use xdna_cpp.Base.Text.{bytes, ◌=ˢ◌, is_empty}
use xdna_cpp.Gate1.Json.{decimal_string}

pub record Gate1Options : Type 0 where
  pub xclbin : Bytes
  pub elf : Bytes
  pub device_index : ℕ
  pub timeout_ms : ℕ
  pub kernel : Bytes

-- `Gate1Options defaults = {}`
abbrev pub default_options : Gate1Options
default_options = record {
  xclbin = [];
  elf = [];
  device_index = 0;
  timeout_ms = 10000;
  kernel = bytes "DPU:dpu";
}

pub record Gate1ArgumentParse : Type 0 where
  pub ok : Bool
  pub help : Bool
  pub options : Gate1Options
  pub error : Bytes

-- What an argument is: the branches of the loop.
pub data Argument : Type 0 where
  help_flag : Argument
  xclbin_option : Argument
  elf_option : Argument
  device_index_option : Argument
  timeout_ms_option : Argument
  kernel_option : Argument
  unknown_argument : Argument

abbrev pub classify : Bytes → Argument
classify argument =
    if argument =ˢ bytes "--help" || argument =ˢ bytes "-h"
    then help_flag
    else if argument =ˢ bytes "--xclbin"
    then xclbin_option
    else if argument =ˢ bytes "--elf"
    then elf_option
    else if argument =ˢ bytes "--device-index"
    then device_index_option
    else if argument =ˢ bytes "--timeout-ms"
    then timeout_ms_option
    else if argument =ˢ bytes "--kernel"
    then kernel_option
    else unknown_argument

-- A null pointer in `argv` is an empty argument.
abbrev pub text_of : Option Bytes → Bytes
text_of none = []
text_of (some argument) = argument

-- `*parsed` where it may be zero, and where it may not.
abbrev store_device_index : Gate1Options → Option ℕ → Bytes ⊎ Gate1Options
store_device_index options none =
    inl (bytes "--device-index requires a non-negative decimal integer")
store_device_index options (some parsed) = inr (record options { device_index = parsed })

abbrev store_timeout : Gate1Options → Option ℕ → Bytes ⊎ Gate1Options
store_timeout options none = inl (bytes "--timeout-ms requires a positive decimal integer")
store_timeout options (some parsed) =
    if parsed == 0
    then inl (bytes "--timeout-ms requires a positive decimal integer")
    else inr (record options { timeout_ms = parsed })

-- What an option does with its value: an error or the new options.
abbrev pub store : Argument → Bytes → Gate1Options → Bytes ⊎ Gate1Options
store xclbin_option value options = inr (record options { xclbin = value })
store elf_option value options = inr (record options { elf = value })
store device_index_option value options = store_device_index options (decimal_string value)
store timeout_ms_option value options = store_timeout options (decimal_string value)
store kernel_option value options = inr (record options { kernel = value })
store help_flag value options = inr options
store unknown_argument value options = inr options

abbrev pub failed : Gate1Options → Bytes → Gate1ArgumentParse
failed options error = record { ok = false; help = false; options = options; error = error }

abbrev pub helped : Gate1Options → Gate1ArgumentParse
helped options = record { ok = true; help = true; options = options; error = [] }

abbrev pub unknown : Gate1Options → Bytes → Gate1ArgumentParse
unknown options argument = failed options (bytes "unknown argument: " ++ argument)

-- The checks behind the loop.
abbrev pub finish : Gate1Options → Gate1ArgumentParse
finish options =
    if is_empty options.xclbin
    then failed options (bytes "--xclbin is required (or set XDNA_GATE1_XCLBIN)")
    else if is_empty options.kernel
    then failed options (bytes "--kernel requires a non-empty value")
    else record { ok = true; help = false; options = options; error = [] }

-- The last argument: an option has no value there.
abbrev pub last_argument : Gate1Options → Bytes → Argument → Gate1ArgumentParse
last_argument options argument help_flag = helped options
last_argument options argument unknown_argument = unknown options argument
last_argument options argument xclbin_option =
    failed options (argument ++ bytes " requires a value")
last_argument options argument elf_option = failed options (argument ++ bytes " requires a value")
last_argument options argument device_index_option =
    failed options (argument ++ bytes " requires a value")
last_argument options argument timeout_ms_option =
    failed options (argument ++ bytes " requires a value")
last_argument options argument kernel_option =
    failed options (argument ++ bytes " requires a value")

-- The options that take a value.
abbrev pub takes_value : Argument → Bool
takes_value help_flag = false
takes_value unknown_argument = false
takes_value xclbin_option = true
takes_value elf_option = true
takes_value device_index_option = true
takes_value timeout_ms_option = true
takes_value kernel_option = true

-- The loop over the arguments behind the program's name.
pub parse_arguments : Gate1Options → List (Option Bytes) → Gate1ArgumentParse
parse_arguments options [] = finish options
parse_arguments options (argument ∷ []) =
    last_argument options (text_of argument) (classify (text_of argument))
parse_arguments options (argument ∷ value ∷ rest) =
    let kind = classify (text_of argument) in
    elim (takes_value kind) [
      | false ↦ last_argument options (text_of argument) kind
      | true ↦ elim (is_empty (text_of value)) [
        | true ↦ failed options (text_of argument ++ bytes " requires a value")
        | false ↦ elim (store kind (text_of value) options) [
          | inl error ↦ failed options error
          | inr options' ↦ parse_arguments options' rest
        ]
      ]
    ]

pub parse_gate1_arguments : (argv : List (Option Bytes)) → Gate1Options → Gate1ArgumentParse
parse_gate1_arguments [] options = finish options
parse_gate1_arguments (program ∷ arguments) options = parse_arguments options arguments
