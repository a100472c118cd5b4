-- ===== src/Ydb/Served.antt =====
-- extent_client.h: a client of the extent server as the extents that the ydb servers stand on. Its
-- state is the extent server with all its clients, or `none` once a put has failed.
use cse_labs.Prelude.{ℕ, ◌≡◌, refl, ap, ◌∙◌, Option, none, some, Bytes, [], ◌==◌, if◌then◌else◌}
use cse_labs.Extent.{Stack}
use cse_labs.Extent.Cache.{IsStack}
use cse_labs.Extent.Client.{World, get, put}
use cse_labs.Extent.Client.Agreement.{IsCoherent}
use cse_labs.Extent.Client.Content.{content, get-Kept, CanWrite, put-content}
use cse_labs.Ydb.{ExtentClient}

module _ (name : Bytes) (stack : World → Stack) (stacks : (w : World) → IsStack (stack w)) where
  abbrev pub value : Option World → ℕ → Bytes
  value none i = []
  value (some w) i = content w name i

  abbrev pub CanPut : Option World → ℕ → Bytes → Type 0
  CanPut none i b = ⊥
  CanPut (some w) i b = IsCoherent w × CanWrite w.server.im i b

  abbrev pub get_extent : Option World → ℕ → Bytes × Option World
  get_extent none i = ([], none)
  get_extent (some w) i = (content w name i, some (get w name i).0)

  abbrev pub put_extent : Option World → ℕ → Bytes → Option World
  put_extent none i b = none
  put_extent (some w) i b = put w name i b (stack w)

  pub get_extent-value : (s : Option World) (i : ℕ) → (get_extent s i).0 ≡ value s i
  get_extent-value none i = refl
  get_extent-value (some w) i = refl

  pub value-get_extent : (s : Option World) (i j : ℕ) → value (get_extent s i).1 j ≡ value s j
  value-get_extent none i j = refl
  value-get_extent (some w) i j = (get-Kept w name i).read j

  pub value-put_extent :
      (s : Option World) (i j : ℕ) (b : Bytes)
      → CanPut s i b
      → value (put_extent s i b) j ≡ (if i == j then b else value s j)
  value-put_extent none i j b h = absurd h
  value-put_extent (some w) i j b (h, c) =
      let (w', e, r, _) = put-content w name i b (stack w) h c (stacks w) in
      ap (λ o. value o j) e ∙ r j

  -- The servers call a `remove` that the client does not have: it is an argument.
  abbrev pub extent_client : (Option World → ℕ → Option World) → ExtentClient (Option World)
  extent_client remove = record {
    value = value;
    CanPut = CanPut;
    get = get_extent;
    put = put_extent;
    remove = remove;
    get_value = get_extent-value;
    get_keeps = value-get_extent;
    put_value = value-put_extent;
  }
