-- ===== src/Extent/Client/Served.antt =====
-- extent_client.h: a client of the extent server as the extents that yfs_client stands on. Its state
-- is the server and all clients, whose caches agree with the server's; `stack` is what each call finds
-- on its stack and on the clock.
use cse_labs.Prelude.{ℕ, refl, sym, subst, some, Bytes, arith}
use cse_labs.Fs.Manager.Content.{get_inode-found}
use cse_labs.Extent.{Stack, data_of}
use cse_labs.Extent.Cache.{IsStack}
use cse_labs.Extent.Client.{World, get, getattr, put, create_file_and_dir, create_symlink, remove}
use cse_labs.Extent.Client.Agreement.{IsCoherent}
use cse_labs.Extent.Client.Content.{content, Kept, get-Kept, CanWrite, put-content}
use cse_labs.Extent.Client.Creation.{CanEnter, create-content}
use cse_labs.Yfs.Services.{Extents}

module _ (name : Bytes) (stack : World → Stack) (stacks : (w : World) → IsStack (stack w)) where
  abbrev pub CanPut : World → ℕ → Bytes → Type 0
  CanPut w i b = IsCoherent w × CanWrite w.server.im i b

  abbrev pub CanCreate : World → ℕ → Bytes → ℕ → Type 0
  CanCreate w t n p = IsCoherent w × CanEnter w.server.im t p n (data_of w.server p)

  pub CanPut-Kept :
      {w w' : World} (i : ℕ) (b : Bytes) → Kept name w w' → CanPut w i b → CanPut w' i b
  CanPut-Kept i b k (h, c) = (k.coherent h, subst (λ im. CanWrite im i b) (sym k.im) c)

  pub CanCreate-Kept :
      {w w' : World} (t : ℕ) (n : Bytes) (p : ℕ)
      → Kept name w w'
      → CanCreate w t n p
      → CanCreate w' t n p
  CanCreate-Kept {w} {w'} t n p k (h, c) = (
    k.coherent h,
    subst (λ d. CanEnter w'.server.im t p n d) (sym (k.held p))
        (subst (λ im. CanEnter im t p n (data_of w.server p)) (sym k.im) c),
  )

  abbrev pub client_extents : Extents World
  client_extents = record {
    value = λ w i. content w name i;
    CanPut = CanPut;
    CanCreate = CanCreate;
    get = λ w i. some ((get w name i).1, (get w name i).0);
    getattr = λ w i. some (some (getattr w name i).1, (getattr w name i).0);
    put = λ w i b. put w name i b (stack w);
    create = λ w t n p. create_file_and_dir w name t n p (stack w);
    create_symlink = λ w n l p. create_symlink w name n l p (stack w) (stack w);
    remove = λ w i p n. remove w name i p n (stack w);
    get_ok = λ w i.
        let k = get-Kept w name i in
        ((get w name i).0, refl, k.read, λ j b. CanPut-Kept j b k, λ t n p. CanCreate-Kept t n p k);
    put_ok = λ w i b (h, c).
        let (w', e, r, _) = put-content w name i b (stack w) h c (stacks w) in (w', e, r);
    create_ok = λ w t n p (h, c).
        let (w', e, r, _) = create-content w name t n p (stack w) h c (stacks w) in
        (w', c.id, e, r, omega (arith, get_inode-found c.made c.id c.file.found));
  }
