-- ===== src/Validator/Requests/Bodies.antt =====
-- What a body that is accepted has passed.
use api_firewall.Base.{◌≡◌, ◌≢◌, refl, Bool, true, Option, none, some, [], ◌∷◌, Str, arith}
use api_firewall.Validator.Requests.{
  Options, unfit, fit, BodyDecoding, body_parsed, body_unparsed, Media, RequestBody, BodyRead,
  data_read, reading_failed, Library, settle_visited, settle_body, check_media, check_body,
  validate_request_body,
}

module _ (R V : Type 0) (lib : Library R V) (o : Options) where
  -- A body that passes: one that is there if it is required, and with content in the specification
  -- has a media type that it knows, for which it was decoded and fits the schema.
  pub record BodyFits (b : RequestBody R V) (r : R) : Type 0 where
    pub content : Str
    pub read : lib.read_body r ≡ data_read content
    pub present : b.required ≡ true → content ≢ []
    pub media :
        content ≢ []
        → b.has_content ≡ true
        → (m : Media R V) × (b.media_of (lib.content_type r) ≡ some m)
          × (m.has_schema ≡ true
              → (defaults : Bool) × (failure : Option Str) × (rewrite : R → R) × (m.decode o r
                    content
                  ≡ body_parsed (fit defaults failure rewrite)))

  -- What a medium with a schema asks of the body.
  abbrev Decodes : Media R V → R → Str → Type 0
  Decodes m r x =
      m.has_schema ≡ true
      → (defaults : Bool) × (failure : Option Str) × (rewrite : R → R) × (m.decode o r x
          ≡ body_parsed (fit defaults failure rewrite))

  settle_body-fit :
      (r : R) (d : BodyDecoding R V)
      → (settle_body R V lib o r d).1 ≡ none
      → (defaults : Bool) × (failure : Option Str) × (rewrite : R → R) × (d
          ≡ body_parsed (fit defaults failure rewrite))
  unfolding settle_body settle_visited
  settle_body-fit r (body_unparsed x) e = absurd (ground arith)
  settle_body-fit r (body_parsed (unfit x)) e = absurd (ground arith)
  settle_body-fit r (body_parsed (fit defaults failure rewrite)) e =
      (defaults, failure, rewrite, refl)

  check_media-known :
      (r : R) (x : Str) (k : Option (Media R V))
      → (check_media R V lib o r x k).1 ≡ none
      → (m : Media R V) × (k ≡ some m) × Decodes m r x
  unfolding check_media
  check_media-known r x none e = absurd (ground arith)
  check_media-known r x (some m) e =
      (m, refl, λ has. settle_body-fit r (m.decode o r x) (rw has at e))

  check_body-BodyFits :
      (b : RequestBody R V) (r : R) (d : BodyRead R V)
      → lib.read_body r ≡ d
      → (check_body R V lib o b r d).1 ≡ none
      → BodyFits b r
  unfolding check_body
  check_body-BodyFits b r (reading_failed x) q e = absurd (ground arith)
  check_body-BodyFits b r (data_read []) q e = record {
    content = [];
    read = q;
    present = λ required. absurd (ground (arith, required, e));
    media = λ n has. absurd (n refl);
  }
  check_body-BodyFits b r (data_read (c ∷ cs)) q e = record {
    content = c ∷ cs;
    read = q;
    present = λ required same. ground arith;
    media = λ n has. check_media-known r (c ∷ cs) (b.media_of (lib.content_type r)) (rw has at e);
  }

  pub validate_request_body-BodyFits :
      (b : RequestBody R V) (r : R) → (validate_request_body R V lib o b r).1 ≡ none → BodyFits b r
  unfolding validate_request_body
  validate_request_body-BodyFits b r e = check_body-BodyFits b r (lib.read_body r) refl e
