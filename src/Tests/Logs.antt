-- ===== src/Tests/Logs.antt =====
-- The theorem on the pages of the audit log, at two entries.
use text.Mathlib.TextEquality.{eq_iff}
use superion.Prelude.{
  ℕ, zero, suc, String, ◌≡◌, ◌∙◌, sym, ap, refl, Option, none, some, [], ◌∷◌, arith, string_eq,
  get_elem?, length, ◌≤◌,
}
use superion.Dict.{get}
use superion.Audit.{AuditAction, AuditEntry, AuditLog, filtered, in_order}
use superion.Audit.Pages.{IsDistinct, entries_from, entries_from-eq-filtered}

abbrev entry : String → AuditEntry
entry id = record {
  id = id;
  actor_user_id = "tech-1";
  action = AuditAction.login;
  target_type = "user";
  target_id = "tech-1";
  payload = [];
  created_at = 0;
}

abbrev two_entries : AuditLog
two_entries = record {
  entries = ("x1", entry "x1") ∷ ("x2", entry "x2") ∷ [];
  order = "x1" ∷ "x2" ∷ [];
}

listed : filtered two_entries none none none ≡ entry "x1" ∷ entry "x2" ∷ []
unfolding filtered in_order get
listed = refl

two-IsDistinct : IsDistinct (entry "x1" ∷ entry "x2" ∷ [])
two-IsDistinct = record { one = one }
  where
    id_at : Option AuditEntry → String
    id_at none = ""
    id_at (some e) = e.id

    one :
        (j k : ℕ) (e f : AuditEntry)
        → get_elem? (entry "x1" ∷ entry "x2" ∷ []) j ≡ some e
        → get_elem? (entry "x1" ∷ entry "x2" ∷ []) k ≡ some f
        → e.id ≡ f.id
        → j ≡ k
    one zero zero e f p q s = refl
    one zero (suc zero) e f p q s =
        absurd (ground (arith, eq_iff "x1" "x2", ap id_at p ∙ s ∙ sym (ap id_at q)))
    one (suc zero) zero e f p q s =
        absurd (ground (arith, eq_iff "x2" "x1", ap id_at p ∙ s ∙ sym (ap id_at q)))
    one (suc zero) (suc zero) e f p q s = refl
    one (suc (suc j)) k e f p q s = cc
    one j (suc (suc k)) e f p q s = cc

entries_from-eq-filtered_example :
    entries_from two_entries none none none 1 2 none ≡ filtered two_entries none none none
entries_from-eq-filtered_example =
    entries_from-eq-filtered two_entries none none none 0 listed-IsDistinct 2 short
  where
    listed-IsDistinct : IsDistinct (filtered two_entries none none none)
    listed-IsDistinct = rw listed two-IsDistinct

    short : length (filtered two_entries none none none) ≤ 2
    short = rw listed (omega arith)
