-- ===== src/Index/Examples.antt =====
-- Runs of the staleness tests, and the theorems about them at concrete inputs.
use codesight.Prelude.{◌≡◌, ◌↔◌, refl, false, not, [], some}
use codesight.Prelude.Int.{pos}
use codesight.Text.{str, eqt, trim_space, has_prefix, decimal, join}
use codesight.Index.{IndexMetadata, is_stale, staleness_info, format_age, abbreviate}
use codesight.Index.Staleness.{SameTrimmed, is_stale-false_iff, staleness_info-is_stale}

abbrev indexed : IndexMetadata
indexed = record {
  branch = str "main";
  commit_sha = str "0123456789ab";
  ignore_fingerprint = str "f1";
  indexed_at = 0;
  file_count = 12;
  chunk_count = 40;
}

messages :
    (staleness_info (some indexed) (pos 61) (str "0123456789ab\n") (str "f1")
      ≡ str "up to date — indexed 1h ago (12 files, 40 chunks)")
    × (staleness_info (some indexed) (pos 3000) (str "fedcba987") (str "f2")
        ≡ str
            "stale — indexed 2d ago at 0123456, HEAD is now fedcba9 and ignore rules changed (12 files, 40 chunks)")
    × (staleness_info (some indexed) (pos 5) [] (str "f1")
        ≡ str "stale — indexed 5m ago, current HEAD unavailable (12 files, 40 chunks)")
unfolding staleness_info trim_space eqt format_age decimal abbreviate join
messages = (refl, refl, refl)

is_stale-false_iff_example : (is_stale (some indexed) (str " 0123456789ab") (str "f1") ≡ false) ↔ (
    SameTrimmed indexed.commit_sha (str " 0123456789ab")
    × SameTrimmed indexed.ignore_fingerprint (str "f1"))
is_stale-false_iff_example = is_stale-false_iff indexed (str " 0123456789ab") (str "f1")

staleness_info-is_stale_example :
    has_prefix (str "up to date") (staleness_info (some indexed) (pos 7) (str "abc") (str "f1"))
    ≡ not (is_stale (some indexed) (str "abc") (str "f1"))
staleness_info-is_stale_example =
    staleness_info-is_stale (some indexed) (pos 7) (str "abc") (str "f1")
