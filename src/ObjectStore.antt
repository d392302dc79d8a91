-- ===== src/ObjectStore.antt =====
-- internal/objectstore/client.go: the client of the S3 store. Spans are left out. A reader that is handed to Upload is over bytes in memory, so it does not
-- fail.
pub mod Deletions
use Prim.Native.String as Str
use avatars.Prelude.{
  ℕ, String, Bool, true, not, ◌==◌, Option, none, some, List, [], ◌∷◌, Error, Failure, wrap, Result,
  ok, err, if◌then◌else◌,
}
use avatars.Handler
use avatars.Handler.{Bytes}
use avatars.Worker

-- The requests of aws-sdk-go that the client makes; each begins with the bucket.
pub record S3 (W : Type 0) : Type 0 where
  -- key, body, content type
  pub put_object : String → String → Bytes → String → W → Error × W
  -- GetObject: its answer, and what reading the answer's body comes to
  pub get_object : String → String → W → Result (Result Bytes) × W
  pub delete_object : String → String → W → Error × W
  -- GetObjectRequest and Presign
  pub presign : String → String → ℕ → W → Result String × W
  pub head_bucket : String → W → Error × W
  pub create_bucket : String → W → Error × W

-- net/url.
pub record Urls : Type 1 where
  pub Url : Type 0
  pub parse : String → Result Url
  pub scheme : Url → String
  pub host : Url → String
  -- the URL with this scheme and this host
  pub with_host : String → String → Url → Url
  pub print : Url → String

pub record Client (W : Type 0) : Type 1 where
  pub client : S3 W
  pub bucket : String
  pub public_endpoint : String
  pub urls : Urls

-- Config, the arguments of NewClient.
pub record Config : Type 0 where
  pub endpoint : String
  pub public_endpoint : String
  pub bucket : String
  pub region : String
  pub access_key : String
  pub secret_key : String
  pub use_ssl : Bool

-- aws.Config, the fields that NewClient sets.
pub record AwsConfig : Type 0 where
  pub region : String
  pub endpoint : String
  pub s3_force_path_style : Bool
  pub access_key : String
  pub secret_key : String
  pub disable_ssl : Bool

unfoldable pub aws_config : Config → AwsConfig
aws_config cfg = record {
  region = cfg.region;
  endpoint = cfg.endpoint;
  s3_force_path_style = true;
  access_key = cfg.access_key;
  secret_key = cfg.secret_key;
  disable_ssl = not cfg.use_ssl;
}

-- NewClient; `new_session` is session.NewSession and s3.New.
unfoldable pub new_client :
    {W : Type 0} → Urls → (AwsConfig → Result (S3 W)) → Config → Result (Client W)
unfolding aws_config
new_client urls new_session cfg = elim (new_session (aws_config cfg)) [
  | err e ↦ err (wrap "create s3 session" e)
  | ok s3 ↦ ok (record {
    client = s3;
    bucket = cfg.bucket;
    public_endpoint = cfg.public_endpoint;
    urls = urls;
  })
]

wrapped : String → Error → Error
wrapped prefix none = none
wrapped prefix (some e) = some (wrap prefix e)

unfoldable pub replace_url_host : Urls → String → String → String
replace_url_host urls raw public_endpoint = elim (urls.parse raw) [
  | err _ ↦ raw
  | ok parsed ↦ (elim (urls.parse public_endpoint) [
    | err _ ↦ raw
    | ok pub_url ↦ urls.print (urls.with_host (urls.scheme pub_url) (urls.host pub_url) parsed)
  ])
]

read_object : Result (Result Bytes) → Result Bytes
read_object (err e) = err (wrap "download object" e)
read_object (ok (err e)) = err (wrap "read object" e)
read_object (ok (ok content)) = ok content

module _ {W : Type 0} (c : Client W) where
  unfoldable pub upload : String → Bytes → String → W → Error × W
  unfolding wrapped
  upload key content content_type w =
      let (e, w1) = c.client.put_object c.bucket key content content_type w in
      (wrapped "upload object" e, w1)

  unfoldable pub download : String → W → Result Bytes × W
  unfolding read_object
  download key w = let (r, w1) = c.client.get_object c.bucket key w in (read_object r, w1)

  -- The loop of Delete, which skips empty keys and stops at the first error.
  unfoldable pub delete : List String → W → Error × W
  delete [] w = (none, w)
  delete (key ∷ keys) w =
      let skipped = delete keys w in
      let (e, w1) = c.client.delete_object c.bucket key w in
      let later = delete keys w1 in
      if key == ""
      then skipped
      else (elim e [ none ↦ later | some x ↦ (some (wrap (Str.◌++◌ "delete object " key) x), w1) ])

  public_url : Result String → Result String
  public_url (err e) = err (wrap "presign url" e)
  public_url (ok url) =
      ok (
        if not (c.public_endpoint == "")
        then replace_url_host c.urls url c.public_endpoint
        else url)

  unfoldable pub presigned_url : String → ℕ → W → Result String × W
  unfolding public_url replace_url_host
  presigned_url key expiry w =
      if key == ""
      then (ok "", w)
      else (let (r, w1) = c.client.presign c.bucket key expiry w in (public_url r, w1))

  bucket_head : Error → W → Error × W
  bucket_head none w = (none, w)
  bucket_head (some _) w =
      let (e, w1) = c.client.create_bucket c.bucket w in (wrapped "create bucket" e, w1)

  unfoldable pub ensure_bucket : W → Error × W
  unfolding bucket_head wrapped
  ensure_bucket w = let (e, w1) = c.client.head_bucket c.bucket w in bucket_head e w1

  -- The client as the handlers and the worker see it.
  abbrev pub handler_store : Handler.ObjectStore W
  handler_store = record { upload = upload; delete = delete; presigned_url = presigned_url }

  abbrev pub worker_store : Worker.ObjectStore W
  worker_store = record { upload = upload; download = download; delete = delete }
