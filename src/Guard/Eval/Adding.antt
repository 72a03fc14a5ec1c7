-- ===== src/Guard/Eval/Adding.antt =====
-- `add` over a list of findings: the level is the worst one, and nothing is cut while they fit.
use astral_hwmon.Base.{
  ◌+◌, ◌≤◌, ◌<◌, ◌≡◌, ap, ◌∙◌, Bool, false, ◌||◌, List, [], ◌∷◌, ◌++◌, foldl, arith, length, All,
  length-append,
}
use mathlib.Core.List.{append-nil, append_assoc}
use astral_hwmon.Base.Text.{snprintf}
use astral_hwmon.Guard.Types.{same_level, guard_max_findings, Level, Finding, Verdict}
use astral_hwmon.Guard.Eval.{add, raise, detail_size}

-- A finding whose detail already fits its field.
abbrev pub Fits : Finding → Type 0
Fits x = snprintf detail_size x.detail ≡ x.detail

-- The level after findings that raise it in turn.
abbrev pub raised : Level → List Finding → Level
raised l fs = foldl (λ l x. raise x.level l) l fs

add-Fits :
    (v : Verdict) (x : Finding)
    → length v.f < guard_max_findings
    → Fits x
    → add v x ≡ record { level = raise x.level v.level; f = v.f ++ x ∷ [] }
unfolding add
add-Fits v x room fits = ground arith

-- Findings that fit the array are all recorded, in order and uncut.
pub add-each :
    (fs : List Finding) (v : Verdict)
    → length v.f + length fs ≤ guard_max_findings
    → All Fits fs
    → foldl add v fs ≡ record { level = raised v.level fs; f = v.f ++ fs }
add-each [] v room fits = ground (arith, append-nil v.f)
add-each (x ∷ fs) v room fits = rw (add-Fits v x (omega arith) fits.0) (
    add-each fs _ (omega (arith, length-append v.f (x ∷ []))) fits.1
    ∙ ap (λ (g : List Finding). record { level = raised (raise x.level v.level) fs; f = g })
        (append_assoc v.f (x ∷ []) fs))

-- A finding that does not fit costs its record, never the level.
pub add_full :
    (v : Verdict) (x : Finding)
    → length v.f ≡ guard_max_findings
    → (add v x).f ≡ v.f × ((add v x).level ≡ raise x.level v.level)
unfolding add
add_full v x full = (ground arith, ground arith)

-- Some finding has this level.
abbrev pub has : Level → List Finding → Bool
has l [] = false
has l (x ∷ fs) = same_level l x.level || has l fs
