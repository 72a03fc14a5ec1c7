-- ===== src/Guard/Report.antt =====
-- guard/guard_report.c: the text that a verdict is printed as. A report is what `fprintf` writes.
use astral_hwmon.Base.{ℕ, ◌==◌, if◌then◌else◌, Bool, List, [], ◌∷◌, ◌++◌}
use astral_hwmon.Base.Int.{ℤ, pos, negsuc}
use astral_hwmon.Base.Text.{Bytes, codes, decimal, show_int, texts}
use astral_hwmon.Guard.Types.{level_code, Limits, rule_id, Finding, Verdict, Chip}

-- The name of any `int` level.
unfoldable pub guard_level_name : ℤ → Bytes
guard_level_name (negsuc n) = if n == 0 then codes "NOTE" else codes "UNKNOWN"
guard_level_name (pos n) =
    if n == 0
    then codes "OK"
    else if n == 1
    then codes "WARNING"
    else if n == 2
    then codes "CRITICAL"
    else codes "UNKNOWN"

unfoldable pub text_finding : Finding → Bytes
unfolding guard_level_name
text_finding f =
    codes "  ["
    ++ (guard_level_name (level_code f.level) ++ (codes "] " ++ (f.detail ++ codes "\n")))

unfoldable pub text_findings : List Finding → Bytes
unfolding text_finding
text_findings [] = []
text_findings (f ∷ fs) = text_finding f ++ text_findings fs

unfoldable pub guard_report_text : Chip → Verdict → Bytes
unfolding guard_level_name text_findings
guard_report_text c v = texts (
    guard_level_name (level_code v.level)
    ∷ codes " 12VHPWR "
    ∷ c.path
    ∷ codes "\n"
    ∷ text_findings v.f
    ∷ [])

unfoldable pub json_finding : Finding → Bytes
unfolding guard_level_name
json_finding f = texts (
    codes "\n      {\"rule\": \""
    ∷ rule_id f.rule
    ∷ codes "\", \"level\": \""
    ∷ guard_level_name (level_code f.level)
    ∷ codes "\", \"pin\": "
    ∷ decimal f.pin
    ∷ codes ", \"value\": "
    ∷ decimal f.value
    ∷ codes ", \"detail\": \""
    ∷ f.detail
    ∷ codes "\"}"
    ∷ [])

-- The findings from the second on: `i ? "," : ""`.
unfoldable pub json_more : List Finding → Bytes
unfolding json_finding
json_more [] = []
json_more (f ∷ fs) = codes "," ++ (json_finding f ++ json_more fs)

-- The loop, and the end of the array: `v->n ? "\n    " : ""`.
unfoldable pub json_findings : List Finding → Bytes
unfolding json_more
json_findings [] = codes "],\n"
json_findings (f ∷ fs) = json_finding f ++ (json_more fs ++ codes "\n    ],\n")

abbrev pub limit : Bytes → ℕ → Bytes
limit name n = codes "\"" ++ (name ++ (codes "\": " ++ decimal n))

unfoldable pub json_limits : Limits → Bytes
json_limits lim = texts (
    codes "    \"limits\": {"
    ∷ limit (codes "pin_warn_ma") lim.pin_warn_ma
    ∷ codes ", "
    ∷ limit (codes "pin_crit_ma") lim.pin_crit_ma
    ∷ codes ", "
    ∷ limit (codes "open_pin_ma") lim.open_pin_ma
    ∷ codes ", "
    ∷ limit (codes "open_gate_ma") lim.open_gate_ma
    ∷ codes ", "
    ∷ limit (codes "ratio_gate_ma") lim.ratio_gate_ma
    ∷ codes ", "
    ∷ limit (codes "ratio_note_pct") lim.ratio_note_pct
    ∷ codes ", "
    ∷ limit (codes "ratio_warn_pct") lim.ratio_warn_pct
    ∷ codes ", "
    ∷ limit (codes "ratio_crit_pct") lim.ratio_crit_pct
    ∷ codes ", "
    ∷ limit (codes "mv_warn") lim.mv_warn
    ∷ codes ", "
    ∷ limit (codes "mv_crit") lim.mv_crit
    ∷ codes "}\n"
    ∷ [])

unfoldable pub guard_report_json : Chip → Verdict → Limits → Bool → Bytes
unfolding guard_level_name json_findings json_limits
guard_report_json c v lim first = texts (
    (if first then [] else codes ",\n")
    ∷ codes "  {\n"
    ∷ codes "    \"chip\": \""
    ∷ c.path
    ∷ codes "\",\n"
    ∷ codes "    \"update_interval_ms\": "
    ∷ decimal c.update_interval_ms
    ∷ codes ",\n"
    ∷ codes "    \"level\": \""
    ∷ guard_level_name (level_code v.level)
    ∷ codes "\",\n"
    ∷ codes "    \"exit_code\": "
    ∷ show_int (level_code v.level)
    ∷ codes ",\n"
    ∷ codes "    \"findings\": ["
    ∷ json_findings v.f
    ∷ json_limits lim
    ∷ codes "  }"
    ∷ [])
