-- ===== src/Manuals/Versions/Runs.antt =====
-- The uploads, archivings, reindexings and indexings of manuals, in any order.
use superion.Prelude.{ℕ, String, ◌≡◌, Bool, Option, some, List, ◌∷◌, ◌++◌, arith, string_eq}
use superion.Effect.{Result, ok, ◌>>=◌}
use superion.Effect.Rules.{state_of_outcome}
use superion.Dict.{get}
use superion.Domain.User.{User}
use superion.Domain.Manual.{Manual}
use superion.World.{World}
use superion.Manuals.Chunker.{Chunker, PageText}
use superion.Manuals.Lifecycle.{archive, reindex, upload}
use superion.Manuals.Index.{begin, finish}
use superion.Manuals.Versions.Kept.{Tagged, tag, tag_of}
use superion.Manuals.Versions.Tags.{archive-Stable, reindex-Stable, finish-Tagged}
use superion.Manuals.Versions.Uploads.{
  IsVersioned, Tagged-refl, Tagged-IsVersioned, Stable-tags, All-middle, upload-IsVersioned,
}

-- One operation, or one step of a task in the background, from a world and the manuals in `running`
module _ (strip : String → String) (str : ℕ → String) (max_size : ℕ) (is_space : ℕ → Bool)
    (chunker : Chunker) (extract : List ℕ → Result (List PageText))
    (embed : List (List ℕ) → Result (List (List String))) where
  pub data Step : List Manual → World → List Manual → World → Type 0 where
    uploaded :
        {js : List Manual} {w : World} (title model : String) (bytes : List ℕ) (type : String)
        (previous : Option String) (user : User)
        → strip model ≡ model
        → Step js w js (upload strip str max_size title model bytes type previous user w).1
    archived :
        {js : List Manual} {w : World} (mid : String) (user : User)
        → Step js w js (archive mid user w).1
    reindexed : {js : List Manual} {w : World} (mid : String) → Step js w js (reindex mid w).1
    begun :
        {js : List Manual} {w : World} (mid : String) (m : Manual)
        → (begin is_space str chunker extract embed mid w).0 ≡ ok m
        → Step js w (m ∷ js) w
    finished :
        {w : World} (earlier later : List Manual) (m : Manual)
        → Step
            (earlier ++ m ∷ later)
            w
            (earlier ++ later)
            (finish is_space str chunker extract embed m.id m w).1

  -- A run of such steps
  pub data Run : List Manual → World → List Manual → World → Type 0 where
    stay : {js : List Manual} {w : World} → Run js w js w
    step : {js ks ls : List Manual} {w v u : World} → Step js w ks v → Run ks v ls u → Run js w ls u

  begun-IsVersioned :
      {js : List Manual} {w : World} (mid : String) (m : Manual)
      → (begin is_space str chunker extract embed mid w).0 ≡ ok m
      → IsVersioned js w
      → IsVersioned (m ∷ js) w
  unfolding begin tag ◌>>=◌
  begun-IsVersioned {w = w} mid m e h = record {
    keyed = h.keyed;
    distinct = h.distinct;
    fresh = h.fresh;
    draws = h.draws;
    tracked = (stored, h.tracked);
  }
    where
      found : get w.manuals mid ≡ some m
      found = ground arith

      stored : tag w m.id ≡ some (tag_of m)
      stored = ground (arith, h.keyed mid m found, found)

  finished-IsVersioned :
      {w : World} (earlier later : List Manual) (m : Manual)
      → IsVersioned (earlier ++ m ∷ later) w
      → IsVersioned (earlier ++ later) (finish is_space str chunker extract embed m.id m w).1
  finished-IsVersioned {w} earlier later m h =
      let rest : IsVersioned (earlier ++ later) w = record {
        keyed = h.keyed;
        distinct = h.distinct;
        fresh = h.fresh;
        draws = h.draws;
        tracked = (All-middle _ earlier m later h.tracked).1;
      } in
      Tagged-IsVersioned
        (state_of_outcome (Tagged w) (finish is_space str chunker extract embed m.id m w).0 _ (
          (finish-Tagged w is_space str chunker extract embed m.id m).at w
            (Tagged-refl w rest, (All-middle _ earlier m later h.tracked).0)))
        rest

  Step-IsVersioned :
      (js ks : List Manual) (w v : World) → Step js w ks v → IsVersioned js w → IsVersioned ks v
  Step-IsVersioned js ks w v (uploaded title model bytes type previous user trimmed) h =
      state_of_outcome (IsVersioned js)
        (upload strip str max_size title model bytes type previous user w).0 _
        ((upload-IsVersioned js strip str max_size title model bytes type previous user trimmed).at
          w h)
  Step-IsVersioned js ks w v (archived mid user) h =
      state_of_outcome (IsVersioned js) (archive mid user w).0 _
        ((Stable-tags (archive mid user) (λ u. archive-Stable u mid user)).at w h)
  Step-IsVersioned js ks w v (reindexed mid) h =
      state_of_outcome (IsVersioned js) (reindex mid w).0 _
        ((Stable-tags (reindex mid) (λ u. reindex-Stable u mid)).at w h)
  Step-IsVersioned js ks w v (begun mid m e) h = begun-IsVersioned mid m e h
  Step-IsVersioned js ks w v (finished earlier later m) h = finished-IsVersioned earlier later m h

  -- In every world that uploads, archivings, reindexings and the two steps of indexings lead to, in
  -- any order and whether they succeed or raise: no two manuals of one model have the same version,
  -- if the uploads name the model without spaces around it. (The version is counted for the model
  -- as it was sent, and the manual is stored under the stripped one.)
  pub Run-IsVersioned :
      (js ks : List Manual) (w v : World) → Run js w ks v → IsVersioned js w → IsVersioned ks v
  Run-IsVersioned js ks w v stay h = h
  Run-IsVersioned js ks w v (step {ks = ls} {v = u} s r) h =
      Run-IsVersioned ls ks u v r (Step-IsVersioned js ls w u s h)
