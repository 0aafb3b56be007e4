-- ===== src/Storage.antt =====
-- src/storage/storage.service.ts: the files under a prefix, with their contents. The client of the
-- object store is a parameter; the requests that are sent together (`Promise.all`) are run one after
-- the other, and one that throws makes the call throw.
use judge_it.Prelude.{List, [], ◌∷◌, Option, none, some}
use judge_it.Prelude.Actions.{Action, ◌>>=◌, pure}
use judge_it.Prelude.Text.{Text}
use judge_it.Judge.TestCases.{file_keys}

pub record Client {ℓ} (S E : Type ℓ) : Type ℓ where
  -- `ListObjectsV2Command` of a bucket and a prefix, `Contents` with its keys
  pub list_objects : Text → Text → Action S E (Option (List Text))
  -- `GetObjectCommand` of a bucket and a key, with its body as a text
  pub get_object : Text → Text → Action S E Text

-- `response.Contents ?? []`.
abbrev pub or_nil : Option (List Text) → List Text
or_nil none = []
or_nil (some keys) = keys

module _ {ℓ} {S E : Type ℓ} (client : Client S E) where
  unfoldable pub list_object_keys : Text → Text → Action S E (List Text)
  list_object_keys bucket prefix = do
    contents ← client.list_objects bucket prefix
    pure (or_nil contents)

  unfoldable pub fetch_all : Text → List Text → Action S E (List (Text × Text))
  fetch_all bucket [] = pure []
  fetch_all bucket (key ∷ keys) = do
    content ← client.get_object bucket key
    rest ← fetch_all bucket keys
    pure ((key, content) ∷ rest)

  unfoldable pub fetch_object_contents : Text → Text → Action S E (List (Text × Text))
  fetch_object_contents bucket prefix = do
    keys ← list_object_keys bucket prefix
    fetch_all bucket (file_keys keys)
