-- ===== src/Gate1/Parse/Total.antt =====
-- `parse_gate1_metadata` returns a consistent verdict on every image.
use xdna_cpp.Base.{
  ℕ, ◌+◌, ◌-◌, ◌*◌, ◌/◌, ◌^◌, ◌<◌, ◌≤◌, ◌≡◌, refl, false, not, ◌||◌, Bytes, Option, none, some,
  ◌==◌, ltb, arith, length,
}
use xdna_cpp.Base.Outcome.{done}
use xdna_cpp.Base.Text.{is_empty, Returns, Returns-bind, Returns-if, Returns-done}
use xdna_cpp.Gate1.Image.{Section}
use xdna_cpp.Gate1.Image.Bounds.{
  Any, AreBytes, Inside, read_u16-Returns, read_u16-lt, read_u32-Returns, read_u64-Returns,
  fixed_string-Returns, find_section-Returns, section_text-Returns, sections_inside-Returns,
}
use xdna_cpp.Gate1.Metadata.{Gate1Metadata, DriverConfig, default_metadata, driver_config_fields}
use xdna_cpp.Gate1.Parse.{
  has_magic, parse_partition, parse_config, parse_objects, parse_sections, parse_found,
  parse_container, reject, parse_table, parse_gate1_metadata,
}
use xdna_cpp.Gate1.Metadata.Laws.{IsFresh, IsVerdict, set_error-IsVerdict, verdict-IsVerdict}

module _ (image : Bytes) (all : AreBytes image) where
  parse_partition-Returns :
      (partition : Section) (metadata : Gate1Metadata)
      → partition.offset + partition.size ≤ length image
      → IsFresh metadata
      → Returns IsVerdict (parse_partition image partition metadata)
  unfolding parse_partition
  parse_partition-Returns partition metadata h fresh =
      Returns-if IsVerdict (ltb partition.size (44 + 4) || ltb partition.size (32 + 2)) _ _
        (λ _. set_error-IsVerdict metadata _ fresh refl)
        (λ e.
          let long : 48 ≤ partition.size = ground (arith, e) in
          Returns-bind (λ v. v < 2 ^ 16) IsVerdict _ _
            (read_u16-lt image (partition.offset + 32) all (omega (arith, long)))
            (λ width small.
              Returns-bind Any IsVerdict _ _
                (read_u32-Returns image (partition.offset + 40) (omega (arith, long)))
                (λ count _.
                  Returns-bind Any IsVerdict _ _
                    (read_u32-Returns image (partition.offset + 44) (omega (arith, long)))
                    (λ start _.
                      Returns-if IsVerdict
                        (count == 0
                          || ltb (partition.size / 2) count
                          || ltb partition.size start
                          || ltb (partition.size - start) (count * 2))
                        _ _
                        (λ _.
                          set_error-IsVerdict _ _
                            (record {
                              not_validated = fresh.not_validated;
                              not_real = fresh.not_real;
                              no_message = fresh.no_message;
                            })
                            refl)
                        (λ e'.
                          let two : partition.offset + start + 2 ≤ length image =
                            ground (arith, e') in
                          Returns-bind (λ v. v < 2 ^ 16) IsVerdict _ _
                            (read_u16-lt image (partition.offset + start) all two)
                            (λ column small'.
                              verdict-IsVerdict _ small small' fresh.no_message))))))

  parse_config-Returns :
      (partition : Section) (metadata : Gate1Metadata) (config : Option DriverConfig)
      → partition.offset + partition.size ≤ length image
      → IsFresh metadata
      → Returns IsVerdict (parse_config image partition metadata config)
  parse_config-Returns partition metadata none h fresh = set_error-IsVerdict metadata _ fresh refl
  parse_config-Returns partition metadata (some config) h fresh =
      parse_partition-Returns partition _ h (record {
        not_validated = fresh.not_validated;
        not_real = fresh.not_real;
        no_message = fresh.no_message;
      })

  parse_objects-Returns :
      (partition : Section) (metadata : Gate1Metadata) (dsa driver_config : Option Bytes)
      → partition.offset + partition.size ≤ length image
      → IsFresh metadata
      → Returns IsVerdict (parse_objects image partition metadata dsa driver_config)
  parse_objects-Returns partition metadata none driver_config h fresh =
      set_error-IsVerdict metadata _ fresh refl
  parse_objects-Returns partition metadata (some dsa) none h fresh =
      set_error-IsVerdict metadata _ fresh refl
  parse_objects-Returns partition metadata (some dsa) (some driver_config) h fresh =
      parse_config-Returns partition _ (driver_config_fields driver_config) h (record {
        not_validated = fresh.not_validated;
        not_real = fresh.not_real;
        no_message = fresh.no_message;
      })

  parse_sections-Returns :
      (build aie partition : Section) (metadata : Gate1Metadata)
      → build.offset + build.size ≤ length image
      → aie.offset + aie.size ≤ length image
      → partition.offset + partition.size ≤ length image
      → IsFresh metadata
      → Returns IsVerdict (parse_sections image build aie partition metadata)
  unfolding parse_sections
  parse_sections-Returns build aie partition metadata hb ha hp fresh =
      Returns-bind Any IsVerdict _ _ (section_text-Returns image build hb) (λ build_text _.
        Returns-bind Any IsVerdict _ _ (section_text-Returns image aie ha)
          (λ aie_text _. parse_objects-Returns partition metadata _ _ hp fresh))

  parse_found-Returns :
      (metadata : Gate1Metadata) (build aie partition : Option Section)
      → Inside image build
      → Inside image aie
      → Inside image partition
      → IsFresh metadata
      → Returns IsVerdict (parse_found image metadata build aie partition)
  parse_found-Returns metadata none aie partition hb ha hp fresh =
      set_error-IsVerdict metadata _ fresh refl
  parse_found-Returns metadata (some build) none partition hb ha hp fresh =
      set_error-IsVerdict metadata _ fresh refl
  parse_found-Returns metadata (some build) (some aie) none hb ha hp fresh =
      set_error-IsVerdict metadata _ fresh refl
  parse_found-Returns metadata (some build) (some aie) (some partition) hb ha hp fresh =
      parse_sections-Returns build aie partition metadata hb ha hp fresh

  parse_container-Returns :
      (count : ℕ)
      → 456 + count * 40 ≤ length image
      → Returns IsVerdict (parse_container image count)
  unfolding parse_container
  parse_container-Returns count h =
      Returns-bind Any IsVerdict _ _ (read_u16-Returns image 332 (omega arith)) (λ mode _.
        Returns-bind Any IsVerdict _ _ (read_u16-Returns image 334 (omega arith)) (λ mask _.
          Returns-bind Any IsVerdict _ _ (fixed_string-Returns image 352 64 (omega arith))
            (λ platform _.
              Returns-bind (Inside image) IsVerdict _ _ (find_section-Returns image 14 count h)
                (λ build hb.
                  Returns-bind (Inside image) IsVerdict _ _ (find_section-Returns image 25 count h)
                    (λ aie ha.
                      Returns-bind (Inside image) IsVerdict _ _
                        (find_section-Returns image 32 count h)
                        (λ partition hp.
                          parse_found-Returns _ build aie partition hb ha hp (record {
                            not_validated = refl;
                            not_real = refl;
                            no_message = refl;
                          })))))))

  reject_lem :
      (message : Bytes) → is_empty message ≡ false → Returns IsVerdict (reject image message)
  reject_lem message h =
      set_error-IsVerdict default_metadata message
        (record { not_validated = refl; not_real = refl; no_message = refl }) h

  parse_table-Returns : 456 ≤ length image → Returns IsVerdict (parse_table image)
  unfolding parse_table
  parse_table-Returns h =
      Returns-bind Any IsVerdict _ _ (read_u32-Returns image 448 (omega arith)) (λ count _.
        Returns-if IsVerdict
          (count == 0 || ltb 0x10000 count || ltb ((length image - 456) / 40) count) _ _
          (λ _. reject_lem _ refl)
          (λ e.
            let table : 456 + count * 40 ≤ length image = ground (arith, e) in
            Returns-bind Any IsVerdict _ _
              (sections_inside-Returns image count 0 (omega (arith, table)))
              (λ inside _.
                Returns-if IsVerdict inside _ _ (λ _. parse_container-Returns count table)
                  (λ _. reject_lem _ refl))))

  -- On every vector of bytes `parse_gate1_metadata` returns, without a read outside of the vector,
  -- whatever the section table, the JSON texts and the partition header say. Its verdict is
  -- consistent: the image is validated exactly when there is no error, it is a real-hardware image
  -- exactly when its mode is 0 besides, and a validated image has the Phoenix profile with a
  -- partition inside the five columns.
  pub parse_gate1_metadata_done :
      (metadata : Gate1Metadata) × (parse_gate1_metadata image ≡ done metadata) × IsVerdict metadata
  unfolding parse_gate1_metadata
  parse_gate1_metadata_done = Returns-done IsVerdict (parse_gate1_metadata image) (
      Returns-if IsVerdict (ltb (length image) 456) _ _ (λ _. reject_lem _ refl)
        (λ e.
          let long : 456 ≤ length image = ground (arith, e) in
          Returns-if IsVerdict (not (has_magic image)) _ _ (λ _. reject_lem _ refl)
            (λ _.
              Returns-bind Any IsVerdict _ _ (read_u64-Returns image 304 (omega (arith, long)))
                (λ declared _.
                  Returns-if IsVerdict (not (declared == length image)) _ _ (λ _. reject_lem _ refl)
                    (λ _. parse_table-Returns long)))))
