-- ===== src/Npu/Assets.antt =====
-- `resolve_asset_path` of src/xdna-gemv-engine.cpp, with the environment and the file system as arguments.
use xdna_cpp.Base.{
  ◌≡◌, refl, Bool, true, false, Bytes, List, [], ◌∷◌, ◌++◌, Option, none, some, ◌⊎◌, inl, inr,
}
use xdna_cpp.Base.Text.{bytes}

-- The directories that are searched behind that of `XDNA_ASSETS_DIR`.
abbrev pub search_dirs : List Bytes
search_dirs =
    bytes "/home/satvik/FORK/xdna.cpp/assets/phx_bins"
    ∷ bytes "./assets/phx_bins"
    ∷ bytes "../assets/phx_bins"
    ∷ bytes "/usr/local/share/xdna/phx_bins"
    ∷ bytes "/usr/share/xdna/phx_bins"
    ∷ []

module _ (getenv : Bytes → Option Bytes) (is_good : Bytes → Bool) where
  -- A variable that is set to a text that is not empty.
  abbrev set_value : Option Bytes → Option Bytes
  set_value none = none
  set_value (some []) = none
  set_value (some (c ∷ value)) = some (c ∷ value)

  pub first_good : (filename : Bytes) → List Bytes → Bytes
  first_good filename [] = filename
  first_good filename (dir ∷ dirs) = elim (is_good (dir ++ b'/' ∷ filename)) [
    | true ↦ dir ++ b'/' ∷ filename
    | false ↦ first_good filename dirs
  ]

  abbrev with_assets_dir : Option Bytes → List Bytes
  with_assets_dir none = search_dirs
  with_assets_dir (some dir) = dir ∷ search_dirs

  pub search : Bytes → Bytes
  search filename =
      first_good filename (with_assets_dir (set_value (getenv (bytes "XDNA_ASSETS_DIR"))))

  abbrev pub override_or_search : (filename : Bytes) → Option Bytes → Bytes
  override_or_search filename none = search filename
  override_or_search filename (some path) = elim (is_good path) [
    | true ↦ path
    | false ↦ search filename
  ]

  abbrev env_value : Option Bytes → Option Bytes
  env_value none = none
  env_value (some name) = set_value (getenv name)

  pub resolve_asset_path : (filename : Bytes) → (env_var : Option Bytes) → Bytes
  resolve_asset_path filename env_var = override_or_search filename (env_value env_var)

  -- A readable path, or the plain name.
  abbrev pub IsResolved : (filename path : Bytes) → Type 0
  IsResolved filename path = (is_good path ≡ true) ⊎ (path ≡ filename)

  by_good :
      (b : Bool) (filename path other : Bytes)
      → is_good path ≡ b
      → IsResolved filename other
      → IsResolved filename (elim b [ true ↦ path | false ↦ other ])
  by_good true filename path other e h = inl e
  by_good false filename path other e h = h

  first_good-IsResolved :
      (filename : Bytes) (dirs : List Bytes) → IsResolved filename (first_good filename dirs)
  unfolding first_good
  first_good-IsResolved filename [] = inr refl
  first_good-IsResolved filename (dir ∷ dirs) =
      by_good _ filename (dir ++ b'/' ∷ filename) (first_good filename dirs) refl
        (first_good-IsResolved filename dirs)

  override-IsResolved :
      (filename : Bytes) (o : Option Bytes) → IsResolved filename (override_or_search filename o)
  unfolding search
  override-IsResolved filename none = first_good-IsResolved filename _
  override-IsResolved filename (some path) =
      by_good _ filename path (search filename) refl (first_good-IsResolved filename _)

  -- Whatever the environment and the files, the path that is resolved is readable, or it is the
  -- plain file name.
  pub resolve_asset_path-IsResolved :
      (filename : Bytes) (env_var : Option Bytes)
      → IsResolved filename (resolve_asset_path filename env_var)
  unfolding resolve_asset_path
  resolve_asset_path-IsResolved filename env_var = override-IsResolved filename (env_value env_var)
