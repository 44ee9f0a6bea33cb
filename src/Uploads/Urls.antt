-- ===== src/Uploads/Urls.antt =====
-- What becomes of a URL that is posted.
use odysee_api.Base.{
  String, ◌≡◌, refl, ap, false, Option, none, some, arith, ℤ, Dict, lookup, contains, lookup-insert,
  eq_refl, inl, inr,
}
use odysee_api.Errors.{Error, Result, ok, err, Result-cases}
use odysee_api.Forklift.{Incoming}
use odysee_api.Queue.{Queue, Message}
use odysee_api.Uploads.Payload.{UrlPayload, UrlTools, url_created, bind}
use odysee_api.Uploads.Handing.{
  S3Location, Url, replied, create_url, url_received, url_reply, on_created, on_bound, post_url,
}

-- The row of a URL that was bound
abbrev pub row_of : ℤ → UrlPayload → Url
row_of user p = record { user_id = user; url = p.url; filename = p.filename }

bind-url : (tools : UrlTools) (url : String) (p : UrlPayload) → bind tools url ≡ ok p → p.url ≡ url
unfolding bind
bind-url tools url p h = ground arith

reply-created :
    {W : Type 0} {i id : String} {v : W} (r : Option Error × W)
    → url_reply i r ≡ (replied (url_created id), v)
    → (id ≡ i) × (r ≡ (none, v))
reply-created (none, w) h = (ground arith, ground arith)
reply-created (some e, w) h = absurd (ground arith)

module _ {C H W : Type 0} (enqueue : Message C → W → Option Error × W)
    (upload_json : Incoming S3Location → Result String) (url_json : Incoming String → Result String)
    (tools : UrlTools) (fault : Option Error) (taken : Error) (q : Queue C H) (user : ℤ)
    (urls rows : Dict Url) (w v : W) (id : String) where
  on_bound-created :
      (p : UrlPayload)
      → on_bound enqueue upload_json url_json fault taken (some q) user urls w (ok p)
        ≡ ((replied (url_created id), v), rows)
      → (id ≡ p.upload_id)
        × (contains id urls ≡ false)
        × (lookup id rows ≡ some (row_of user p))
        × (url_received enqueue upload_json url_json q
              (record { user_id = user; upload_id = id; file_name = p.filename; location = p.url })
              w
            ≡ (none, v))
  on_bound-created p h = on_row (create_url fault taken p.upload_id (row_of user p) urls) refl h
    where
      on_row :
          (r : Result (Dict Url))
          → create_url fault taken p.upload_id (row_of user p) urls ≡ r
          → on_created enqueue upload_json url_json (some q) user p urls w r
            ≡ ((replied (url_created id), v), rows)
          → (id ≡ p.upload_id)
            × (contains id urls ≡ false)
            × (lookup id rows ≡ some (row_of user p))
            × (url_received enqueue upload_json url_json q
                  (record {
                    user_id = user;
                    upload_id = id;
                    file_name = p.filename;
                    location = p.url;
                  })
                  w
                ≡ (none, v))
      on_row (err e) c k = cc
      on_row (ok new) c k =
          let (i, sent) = reply-created _ (ap (λ x. x.0) k) in
          let same : new ≡ rows = ap (λ x. x.1) k in
          rw (i, ← same)
            (
              refl,
              ground arith,
              ground (
                arith,
                lookup-insert p.upload_id p.upload_id (row_of user p) urls,
                eq_refl p.upload_id,
              ),
              sent,
            )

  -- A URL that a user is told was created has a row under an id that no URL had, with the user and
  -- the URL, and the queue has taken the message that tells forklift of it.
  pub created_url_sent :
      (url : String)
      → post_url enqueue upload_json url_json tools fault taken (some q) user (ok url) urls w
        ≡ ((replied (url_created id), v), rows)
      → (contains id urls ≡ false)
        × ((name : String) × (lookup id rows
              ≡ some (record { user_id = user; url = url; filename = name }))
            × (url_received enqueue upload_json url_json q
                  (record { user_id = user; upload_id = id; file_name = name; location = url })
                  w
                ≡ (none, v)))
  unfolding post_url
  created_url_sent url h = elim (Result-cases (bind tools url)) [
    | inl (p, bound) ↦
        let (i, fresh, row, sent) = on_bound-created p (rw bound at h) in
        (
          fresh,
          (
            p.filename,
            rw (← bind-url tools url p bound) row,
            rw (← bind-url tools url p bound) sent,
          ),
        )
    | inr (e, refused) ↦ absurd (ground (arith, refused))
  ]
