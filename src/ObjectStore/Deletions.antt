-- ===== src/ObjectStore/Deletions.antt =====
-- Which objects Delete asks the store to delete.
use Prim.Native.String as Str
use avatars.Prelude.{
  String, ◌==◌, ◌≡◌, refl, none, some, List, [], ◌∷◌, arith, Error, wrap, if◌then◌else◌,
}
use avatars.ObjectStore.{Client, delete}

-- The deletions that were asked for, with their answers, the latest first.
abbrev pub Notes : Type 0
Notes = List (String × Error)

-- A client that does the same and notes the deletions.
abbrev lift {ℓ} : {W : Type 0} {A : Type ℓ} → (W → A × W) → W × Notes → A × (W × Notes)
lift f (w, notes) = let (a, w1) = f w in (a, (w1, notes))

abbrev pub noting : {W : Type 0} → Client W → Client (W × Notes)
noting c = record {
  client = record {
    put_object = λ bucket key content t. lift (c.client.put_object bucket key content t);
    get_object = λ bucket key. lift (c.client.get_object bucket key);
    delete_object = λ bucket key s.
        let (e, w1) = c.client.delete_object bucket key s.0 in (e, (w1, (key, e) ∷ s.1));
    presign = λ bucket key expiry. lift (c.client.presign bucket key expiry);
    head_bucket = λ bucket. lift (c.client.head_bucket bucket);
    create_bucket = λ bucket. lift (c.client.create_bucket bucket);
  };
  bucket = c.bucket;
  public_endpoint = c.public_endpoint;
  urls = c.urls;
}

-- The nonempty keys, each deleted without an error, in front of what was noted before.
unfoldable pub all_deleted : List String → Notes → Notes
all_deleted [] notes = notes
all_deleted (key ∷ keys) notes = all_deleted keys (if key == "" then notes else (key, none) ∷ notes)

-- What Delete makes of the error of the last deletion, with its key.
unfoldable pub last_error : Notes → Error
last_error [] = none
last_error ((key, none) ∷ _) = none
last_error ((key, some x) ∷ _) = some (wrap (Str.◌++◌ "delete object " key) x)

module _ {W : Type 0} (c : Client W) where
  delete-last_error :
      (keys : List String) (w : W) (notes : Notes)
      → last_error notes ≡ none
      → (delete (noting c) keys (w, notes)).0 ≡ last_error (delete (noting c) keys (w, notes)).1.1
  unfolding delete last_error
  delete-last_error [] w notes h = ground arith
  delete-last_error (key ∷ keys) w notes h = ground (
    arith,
    delete-last_error keys w notes h,
    delete-last_error keys (c.client.delete_object c.bucket key w).1 ((key, none) ∷ notes),
  )

  delete-all_deleted :
      (keys : List String) (w : W) (notes : Notes)
      → (delete (noting c) keys (w, notes)).0 ≡ none
      → (delete (noting c) keys (w, notes)).1.1 ≡ all_deleted keys notes
  unfolding delete all_deleted
  delete-all_deleted [] w notes h = refl
  delete-all_deleted (key ∷ keys) w notes h = ground (
    arith,
    delete-all_deleted keys w notes,
    delete-all_deleted keys (c.client.delete_object c.bucket key w).1 ((key, none) ∷ notes),
  )

  -- Delete returns the error of the last deletion that it asked for, with its key, and nil where that
  -- one succeeded or there was none; where it returns nil, it asked for the deletion of every
  -- nonempty key, in order, and each succeeded.
  pub delete_lem :
      (keys : List String) (w : W)
      → ((delete (noting c) keys (w, [])).0 ≡ last_error (delete (noting c) keys (w, [])).1.1)
        × ((delete (noting c) keys (w, [])).0 ≡ none
            → (delete (noting c) keys (w, [])).1.1 ≡ all_deleted keys [])
  delete_lem keys w =
      (delete-last_error keys w [] (unfold last_error in refl), delete-all_deleted keys w [])
