-- ===== src/Manuals/Versions/Kept.antt =====
-- The model and the version of a manual, and saving a manual with the same ones.
use text.Mathlib.TextEquality.{eq_iff}
use superion.Prelude.{
  ℕ, ◌≤◌, String, ◌≡◌, ◌∙◌, sym, ap, Option, none, some, arith, string_eq, ◌==◌, Bool-cases, inl,
  inr, if◌then◌else◌,
}
use superion.Effect.{ok}
use superion.Dict.{get, get-put}
use superion.Domain.Manual.{
  Manual, ManualChunk, mark_indexed, mark_index_failed, mark_reindex_pending,
}
use superion.Domain.Manual
use superion.World.{World}
use superion.Manuals.Repository.{save_manual}

-- A model and a version of it
abbrev pub Tag : Type 0
Tag = String × ℕ

abbrev pub tag_of : Manual → Tag
tag_of m = (m.asset_model, m.version)

-- The tag of the manual with this id
unfoldable pub tag : World → String → Option Tag
tag w k = elim (get w.manuals k) [ none ↦ none | some m ↦ some (tag_of m) ]

-- The manuals of `v` are those of `u`, with the same tags.
pub record Tagged (u v : World) : Type 0 where
  pub keyed : (k : String) (m : Manual) → get v.manuals k ≡ some m → m.id ≡ k
  pub tags : (k : String) → tag v k ≡ tag u k
  pub uuid : v.uuid ≡ u.uuid
  pub drawn : u.drawn ≤ v.drawn

pub framed :
    {u v w : World}
    → Tagged u v
    → w.manuals ≡ v.manuals
    → w.uuid ≡ v.uuid
    → v.drawn ≤ w.drawn
    → Tagged u w
unfolding tag
framed {u} {v} {w} h e f g = record {
  keyed = λ k m p. h.keyed k m (ap (λ d. get d k) (sym e) ∙ p);
  tags = λ k. ap (λ d. elim (get d k) [ none ↦ none | some m ↦ some (tag_of m) ]) e ∙ h.tags k;
  uuid = f ∙ h.uuid;
  drawn = omega (arith, h.drawn, g);
}

-- Saving a manual with the tag of the stored one
module _ (m : Manual) where
  pub tag-save :
      (v : World) (k : String)
      → tag (save_manual m v).1 k ≡ (if m.id == k then some (tag_of m) else tag v k)
  unfolding tag save_manual
  tag-save v k = ground (arith, get-put v.manuals m.id k m)

  pub keyed-save :
      (v : World)
      → ((k : String) (n : Manual) → get v.manuals k ≡ some n → n.id ≡ k)
      → (k : String) (n : Manual) → get (save_manual m v).1.manuals k ≡ some n
      → n.id ≡ k
  unfolding save_manual
  keyed-save v h k n e = ground (arith, get-put v.manuals m.id k m, eq_iff m.id k, h k n)

  pub save-Tagged :
      (u v : World) → Tagged u v → tag v m.id ≡ some (tag_of m) → Tagged u (save_manual m v).1
  unfolding save_manual
  save-Tagged u v h e = record {
    keyed = keyed-save v h.keyed;
    tags = λ k. elim (Bool-cases (m.id == k)) [
      | inl same ↦
          ground
            (arith, tag-save v k, eq_iff m.id k, e, h.tags k, ap (tag v) ((eq_iff m.id k).0 same))
      | inr other ↦ ground (arith, tag-save v k, h.tags k)
    ];
    uuid = h.uuid;
    drawn = h.drawn;
  }

-- The same manual, as far as its id and its tag go
abbrev pub Alike : Manual → Manual → Type 0
Alike m n = (n.id ≡ m.id) × (tag_of n ≡ tag_of m)

pub archive-Alike : (m n : Manual) → Manual.archive m ≡ ok n → Alike m n
unfolding Manual.archive
archive-Alike m n h = ground arith

pub reindex-Alike : (m n : Manual) → mark_reindex_pending m ≡ ok n → Alike m n
unfolding mark_reindex_pending
reindex-Alike m n h = ground arith

pub indexed-Alike : (m n : Manual) (count : ℕ) → mark_indexed m count ≡ ok n → Alike m n
unfolding mark_indexed
indexed-Alike m n count h = ground arith
