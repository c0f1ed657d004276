-- ===== src/Gate1/Metadata/Laws.antt =====
-- What a verdict of the validator says.
use xdna_cpp.Base.{
  ◌+◌, ◌^◌, ◌<◌, ◌≤◌, ◌≡◌, refl, ◌≢◌, Bool, true, false, ◌&&◌, Bytes, [], ◌==◌, arith, bit_and,
}
use xdna_cpp.Base.Text.{bytes, =ˢ_sound, is_empty}
use xdna_cpp.Gate1.Metadata.{
  Gate1Metadata, set_error, profile_matches, judge, report_mismatch, verdict,
}

-- The Phoenix profile, with the partition inside the array: no sum in it wraps around.
pub record IsPhoenix (metadata : Gate1Metadata) : Type 0 where
  pub platform : metadata.platform_vbnv ≡ bytes "xilinx_v1_ipu_0_0"
  pub vendor : metadata.dsa_vendor ≡ bytes "xilinx"
  pub board : metadata.dsa_board_id ≡ bytes "v1"
  pub name : metadata.dsa_name ≡ bytes "ipu"
  pub generation : metadata.hw_gen ≡ 3
  pub rows : metadata.num_rows ≡ 6
  pub columns : metadata.num_columns ≡ 5
  pub compute_start : metadata.compute_row_start ≡ 2
  pub compute_count : metadata.compute_row_count ≡ 4
  pub loads_aie : bit_and metadata.action_mask 1 ≢ 0
  pub some_column : 0 < metadata.partition_num_columns
  pub fits : metadata.partition_start_column + metadata.partition_num_columns ≤ 5
  pub same_width : metadata.partition_section_width ≡ metadata.partition_num_columns
  pub same_start : metadata.partition_section_start_column ≡ metadata.partition_start_column

-- The verdict is consistent: the image is validated when there is no error, it is a real-hardware image when its mode
-- is 0 besides, and a validated one has the profile.
pub record IsVerdict (metadata : Gate1Metadata) : Type 0 where
  pub no_error : metadata.target_validated ≡ is_empty metadata.error
  pub real : metadata.real_hardware_image ≡ (metadata.target_validated && metadata.xclbin_mode == 0)
  pub phoenix : metadata.target_validated ≡ true → IsPhoenix metadata

-- No verdict and no error so far.
pub record IsFresh (metadata : Gate1Metadata) : Type 0 where
  pub not_validated : metadata.target_validated ≡ false
  pub not_real : metadata.real_hardware_image ≡ false
  pub no_message : metadata.error ≡ []

pub set_error-IsVerdict :
    (metadata : Gate1Metadata) (message : Bytes)
    → IsFresh metadata
    → is_empty message ≡ false
    → IsVerdict (set_error metadata message)
set_error-IsVerdict metadata message fresh h = record {
  no_error = ground (arith, fresh.not_validated, fresh.no_message);
  real = ground (arith, fresh.not_validated, fresh.not_real, fresh.no_message);
  phoenix = ground (arith, fresh.not_validated, fresh.no_message);
}

module _ (metadata : Gate1Metadata) (width : metadata.partition_section_width < 2 ^ 16)
    (start : metadata.partition_section_start_column < 2 ^ 16) where
  profile_matches-IsPhoenix : profile_matches metadata ≡ true → IsPhoenix metadata
  profile_matches-IsPhoenix h = record {
    platform = =ˢ_sound _ _ (ground (arith, h));
    vendor = =ˢ_sound _ _ (ground (arith, h));
    board = =ˢ_sound _ _ (ground (arith, h));
    name = =ˢ_sound _ _ (ground (arith, h));
    generation = ground (arith, h);
    rows = ground (arith, h);
    columns = ground (arith, h);
    compute_start = ground (arith, h);
    compute_count = ground (arith, h);
    loads_aie = ground (arith, h);
    some_column = ground (arith, h);
    fits = ground (arith, h, width, start);
    same_width = ground (arith, h);
    same_start = ground (arith, h);
  }

pub verdict-IsVerdict :
    (metadata : Gate1Metadata)
    → metadata.partition_section_width < 2 ^ 16
    → metadata.partition_section_start_column < 2 ^ 16
    → metadata.error ≡ []
    → IsVerdict (verdict metadata)
unfolding verdict
verdict-IsVerdict metadata width start e =
    judged (profile_matches metadata) (profile_matches-IsPhoenix (judge true metadata) width start)
  where
    judged :
        (matches : Bool)
        → (matches ≡ true → IsPhoenix (judge true metadata))
        → IsVerdict (report_mismatch matches (judge matches metadata))
    judged true phoenix = record { no_error = rw e refl; real = refl; phoenix = λ _. phoenix refl }
    judged false phoenix = record {
      no_error = rw e refl;
      real = ground (arith, e);
      phoenix = ground (arith, e);
    }
