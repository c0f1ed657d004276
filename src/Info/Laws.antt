-- ===== src/Info/Laws.antt =====
-- What `main` of tools/xdna-info.cpp writes and returns.
use xdna_cpp.Base.{
  ℕ, ◌≡◌, ◌≤◌, ◌↔◌, refl, sym, Bool, true, false, not, ◌&&◌, Bytes, [], Option, none, some, ◌⊎◌,
  inl, inr, if◌then◌else◌, arith,
}
use xdna_cpp.Base.Outcome.{Outcome, done, ◌>>=◌}
use xdna_cpp.Base.Text.{is_empty, Returns, Returns-if, Returns-bind, Returns-done}
use xdna_cpp.Device.Sysfs.{FileSystem, SysfsSnapshot, discover_sysfs}
use xdna_cpp.Info.{Exit, InfoOptions, cache_directory, print_usage}
use xdna_cpp.Info.Report.{dereference, xrt_strict_reason, opening_line, format_device_report}
use xdna_cpp.Probe.{Kernel, KernelProbe, probe_kernel}
use xdna_cpp.Xrt.{XrtProbe, XrtSystem, probe_xrt, has_value, strict_succeeded}
use xdna_cpp.Xrt.Snapshots.{SomeOpens}

abbrev Done : {A : Type 0} → Outcome ⊥ A → Type 0
Done outcome = Returns (λ a. Unit {0}) outcome

count-Done :
    (count : Option ℕ) (text : ℕ → Bytes)
    → has_value count ≡ true
    → Done (dereference count >>= λ n. done (text n))
count-Done none text h = ground (arith, h)
count-Done (some n) text h = tt

not-not : (b : Bool) → not b ≡ false → b ≡ true
not-not true h = refl
not-not false h = sym h

xrt_strict_reason-Done : (xrt : XrtProbe) → Done (xrt_strict_reason xrt)
unfolding xrt_strict_reason
xrt_strict_reason-Done xrt =
    Returns-if _ (strict_succeeded xrt) _ _ (λ _. tt)
      (λ _.
        Returns-if _ (not xrt.compiled_with_xrt) _ _ (λ _. tt)
          (λ _.
            Returns-if _ (not (has_value xrt.device_count)) _ _ (λ _. tt)
              (λ counted.
                count-Done xrt.device_count _ (not-not (has_value xrt.device_count) counted))))

opening_line-Done : (xrt : XrtProbe) → Done (opening_line xrt)
unfolding opening_line
opening_line-Done xrt =
    Returns-if _ (has_value xrt.device_count) _ _ (λ counted. count-Done xrt.device_count _ counted)
      (λ _. tt)

-- For every snapshot and probe, the report is written: the count of devices is read only where there is one.
pub format_device_report-Done :
    (sysfs : SysfsSnapshot) (xrt : XrtProbe) (kernel : KernelProbe) (cache_directory : Bytes)
    → (text : Bytes) × (format_device_report sysfs xrt kernel cache_directory ≡ done text)
unfolding format_device_report
format_device_report-Done sysfs xrt kernel cache_directory =
    let (text, written, _) =
      Returns-done (λ a. Unit {0}) (format_device_report sysfs xrt kernel cache_directory)
        (Returns-bind (λ a. Unit {0}) (λ a. Unit {0}) (xrt_strict_reason xrt) _
          (xrt_strict_reason-Done xrt)
          (λ reason _.
            Returns-bind (λ a. Unit {0}) (λ a. Unit {0}) (opening_line xrt) _
              (opening_line-Done xrt) (λ opening _. tt))) in
    (text, written)

-- A return from the loop over the arguments writes the usage; its code is 0, or it is 2 and there is a message.
abbrev pub IsEarlyExit : (program : Bytes) → Exit → Type 0
IsEarlyExit program exit =
    (exit.output ≡ print_usage program)
    × (((exit.code ≡ 0) × (exit.errors ≡ [])) ⊎ ((exit.code ≡ 2) × (is_empty exit.errors ≡ false)))

abbrev IsEarly : Bytes → Exit ⊎ InfoOptions → Type 0
IsEarly program (inl exit) = IsEarlyExit program exit
IsEarly program (inr options) = Unit {0}

-- The options that `main` reports with: the report is written, and the code is 1 exactly when the strict check was asked
-- for and no enumerated device opens.
abbrev pub IsReported :
    FileSystem → Kernel → XrtSystem → (getenv : Bytes → Option Bytes) → InfoOptions → Exit → Type 0
IsReported files kernel xrt getenv options exit =
    (format_device_report (discover_sysfs files options.paths) (probe_xrt xrt)
        (probe_kernel kernel options.paths.accel_node).0 (cache_directory getenv)
      ≡ done exit.output)
    × (exit.errors ≡ [])
    × (exit.code ≤ 1)
    × (exit.code ≡ 1 ↔ ((options.strict ≡ true) × ¬ SomeOpens xrt))

abbrev pub Exits :
    FileSystem
    → Kernel
    → XrtSystem
    → (getenv : Bytes → Option Bytes) → (program : Bytes) → Exit ⊎ InfoOptions
    → Exit
    → Type 0
Exits files kernel xrt getenv program (inl early) exit = IsEarlyExit program exit
Exits files kernel xrt getenv program (inr options) exit =
    IsReported files kernel xrt getenv options exit

abbrev code_by : (strict succeeded : Bool) → ℕ
code_by strict succeeded = if strict && not succeeded then 1 else 0
