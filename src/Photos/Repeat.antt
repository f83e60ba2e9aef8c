-- ===== src/Photos/Repeat.antt =====
-- A client that repeats an upload with the same event id.
use superion.Prelude.{
  ℕ, ◌+◌, String, ◌≡◌, ◌∙◌, sym, ap, refl, Option, none, some, List, arith, string_eq, nat_eq,
  pair_eq,
}
use superion.Effect.{Result, ok, err, modify, ◌>>=◌}
use superion.Effect.Rules.{
  Outcome, Ensures, Ensures-bind, Ensures-pure, Ensures-gets, Ensures-or_raise, Ensures-raise_if,
  Ensures-strengthen, ok_of_outcome,
}
use superion.Dict.{get, put, get-put_self}
use superion.Value.{Payload}
use superion.Domain.User.{User}
use superion.Domain.Session.{Session}
use superion.Domain.Photo.{Photo, PhotoStatus}
use superion.Events.Store.{next_seq}
use superion.Events.Append.{require_session, get_by_id_for_technician, session_not_found}
use superion.World.{World, Message, uuid4, now}
use superion.World.Bus.{EventBus, SameStores}
use superion.Photos.{save_photo, photo_of_event}
use superion.Photos.Upload.{
  UploadPhotoOutput, invalid_photo, emit_ws, store_photo, upload_new, upload,
}

abbrev Any : World → Type 0
Any w = Unit

-- What the upload of a stored photo answers
abbrev answer : Photo → UploadPhotoOutput
answer p = record { photo_id = p.id; status = p.validation_status; uploaded_at = p.captured_at }

module _ (bus : EventBus) (max_size : ℕ) (sign : String → String) (sid : String) (i : ℕ)
    (eid : String) (bytes : List ℕ) (type : String) (criteria : Option String) (user : User) where
  -- The session is the user's.
  abbrev Owned : Session → World → Type 0
  Owned s w = get_by_id_for_technician w sid user.id ≡ some s

  -- A photo is stored under the event id.
  abbrev Kept : Session → Photo → World → Type 0
  Kept s p w = Owned s w × (photo_of_event w sid eid ≡ some p)

  abbrev Answered : UploadPhotoOutput → World → Type 0
  Answered out w = (s : Session) × (p : Photo) × Kept s p w × (out ≡ answer p)

  require-Owned : Ensures Any (require_session sid user) Owned Any
  unfolding require_session
  require-Owned =
      Ensures-bind (λ o w. o ≡ get_by_id_for_technician w sid user.id) _ _
        (Ensures-gets _ (λ w p. refl))
        λ o. Ensures-or_raise o session_not_found (λ w s e p. sym p ∙ e) (λ w p. tt)

  ws-Kept :
      (s : Session) (p : Photo) (kind : String) (payload : Payload)
      → Ensures (Kept s p) (emit_ws bus sid kind payload) (λ _. Kept s p) Any
  unfolding emit_ws now get_by_id_for_technician photo_of_event ◌>>=◌
  ws-Kept s p kind payload = record {
    at = λ w h.
        let m : Message = record {
          seq = next_seq w.event_store sid;
          type = kind;
          session_id = sid;
          created_at = w.clock w.ticks;
          payload = payload;
        } in
        let u : World = record w { ticks = w.ticks + 1 } in
        let same : SameStores u (bus.publish m u).1 = (bus.publish-SameStores m).at u in
        outcome (bus.publish m u).0 (bus.publish m u).1
          (rw (same.sessions, same.photos, same.photo_index) h);
  }
    where
      outcome : (r : Result (Unit {0})) (v : World) → Kept s p v → Outcome (λ _. Kept s p) Any r v
      outcome (ok a) v h = h
      outcome (err e) v h = tt

  abbrev fresh_photo : String → String → ℕ → Photo
  fresh_photo id path at = record {
    id = id;
    session_id = sid;
    step_index = i;
    storage_path = path;
    captured_at = at;
    validation_status = PhotoStatus.pending;
    validation_feedback = none;
    retries = 0;
    model_version = none;
    event_id = some eid;
    criteria = criteria;
  }

  save-Kept :
      (s : Session) (id path : String) (at : ℕ)
      → Ensures
          (Owned s)
          (save_photo (fresh_photo id path at))
          (λ _. Kept s (fresh_photo id path at))
          Any
  unfolding save_photo get_by_id_for_technician photo_of_event
  save-Kept s id path at = record {
    at = λ w h. (
      h,
      ap (λ o. elim o [ none ↦ none | some k ↦ get (put w.photos id (fresh_photo id path at)) k ])
            (get-put_self w.photo_index (sid, eid) id)
          ∙ get-put_self w.photos id (fresh_photo id path at),
    );
  }

  modify-keeps :
      (P : World → Type 0) (f : World → World)
      → ((w : World) → P w → P (f w))
      → Ensures P (modify f) (λ _. P) Any
  unfolding ◌>>=◌
  modify-keeps P f h = record { at = h }

  store-Answered :
      (s : Session)
      → Ensures (Owned s) (store_photo bus max_size sign sid i eid bytes type criteria) Answered Any
  unfolding store_photo uuid4 now get_by_id_for_technician photo_of_event
  store-Answered s =
      Ensures-bind (λ _. Owned s) _ _ (record { at = λ w h. h })
        λ id.
          Ensures-bind (λ _. Owned s) _ _ (modify-keeps (Owned s) _ (λ w h. h))
            λ _.
              Ensures-bind (λ _. Owned s) _ _ (record { at = λ w h. h })
                λ at.
                  Ensures-bind (λ _. Kept s (fresh_photo id _ at)) _ _ (save-Kept s id _ at)
                    λ _.
                      Ensures-bind (λ _. Kept s (fresh_photo id _ at)) _ _
                        (ws-Kept s (fresh_photo id _ at) "photo.captured" _)
                        λ _.
                          Ensures-bind (λ _. Kept s (fresh_photo id _ at)) _ _
                            (modify-keeps _ _ (λ w h. h))
                            λ _. Ensures-pure _ (λ w h. (s, _, h, refl))

  new-Answered :
      (s : Session)
      → Ensures (Owned s) (upload_new bus max_size sign sid i eid bytes type criteria) Answered Any
  unfolding upload_new
  new-Answered s =
      Ensures-bind (λ _. Owned s) _ _ (Ensures-raise_if _ invalid_photo (λ w e h. h) (λ w h. tt))
        λ _.
          Ensures-bind (λ _. Owned s) _ _
            (Ensures-raise_if _ invalid_photo (λ w e h. h) (λ w h. tt))
            λ _.
              Ensures-bind (λ _. Owned s) _ _
                (Ensures-raise_if _ invalid_photo (λ w e h. h) (λ w h. tt)) λ _. store-Answered s

  upload-Answered :
      Ensures Any (upload bus max_size sign sid i eid bytes type criteria user) Answered Any
  unfolding upload
  upload-Answered = Ensures-bind Owned _ _ require-Owned λ s.
      Ensures-bind (λ o w. Owned s w × (photo_of_event w sid eid ≡ o)) _ _
        (Ensures-gets _ (λ w h. (h, refl)))
        (elim [
          | some p ↦ Ensures-pure (answer p) (λ w h. (s, p, h, refl))
          | none ↦ Ensures-strengthen (λ w h. h.0) (new-Answered s)
        ])

  repeated_upload :
      (s : Session) (p : Photo) (w : World)
      → Kept s p w
      → upload bus max_size sign sid i eid bytes type criteria user w ≡ (ok (answer p), w)
  unfolding upload require_session ◌>>=◌
  repeated_upload s p w h = ground (arith, h.0, h.1)

  -- If an upload was accepted, the same upload sent again, before the photo is validated, gets the
  -- same answer and changes nothing: it stores no second photo and starts no second validation.
  pub upload_again :
      (w : World) (out : UploadPhotoOutput)
      → (upload bus max_size sign sid i eid bytes type criteria user w).0 ≡ ok out
      → let v = (upload bus max_size sign sid i eid bytes type criteria user w).1 in
        upload bus max_size sign sid i eid bytes type criteria user v ≡ (ok out, v)
  upload_again w out accepted =
      let (r, v) = upload bus max_size sign sid i eid bytes type criteria user w in
      let (s, p, h, same) = ok_of_outcome Answered Any out r v (upload-Answered.at w tt) accepted in
      repeated_upload s p v h ∙ ap (λ o. (ok o, v)) (sym same)
