-- ===== src/Audio/Urls.antt =====
-- frontend/realtime/src/ttsClone/audio.ts: the object URLs that are alive are those of the store.
use agent_speak.Base.{
  ℕ, String, Bool, false, not, ◌&&◌, ◌||◌, List, [], ◌∷◌, ◌++◌, Option, none, some, str_eq, eq_iff,
  if◌then◌else◌, includes, ◌≡◌, refl, arith, ◌∙◌,
}
use agent_speak.Audio.Store.{
  EphemeralAudioStore, empty_store, UrlCall, create_object_url, revoke_object_url, revoke,
  set_reference, clear_reference, set_generated, clear_generated, dispose,
}

-- The browser's registry of URLs, under the calls.
abbrev pub drop_url : String → List String → List String
drop_url url [] = []
drop_url url (x ∷ xs) = if str_eq x url then drop_url url xs else x ∷ drop_url url xs

abbrev pub registered : List UrlCall → List String → List String
registered [] alive = alive
registered (create_object_url url ∷ calls) alive = registered calls (url ∷ alive)
registered (revoke_object_url url ∷ calls) alive = registered calls (drop_url url alive)

pub data Operation : Type 0 where
  sets_reference sets_generated : ℕ → String → Operation
  clears_reference clears_generated disposes : Operation

unfoldable pub apply : Operation → EphemeralAudioStore → EphemeralAudioStore × List UrlCall
unfolding set_reference clear_reference set_generated clear_generated dispose
apply (sets_reference blob url) s = set_reference blob url s
apply (sets_generated blob url) s = set_generated blob url s
apply clears_reference s = clear_reference s
apply clears_generated s = clear_generated s
apply disposes s = dispose s

pub record Session : Type 0 where
  pub store : EphemeralAudioStore
  pub alive : List String

abbrev pub step : Session → Operation → Session
step s o =
    let (store, calls) = apply o s.store in
    record { store = store; alive = registered calls s.alive }

abbrev pub run : Session → List Operation → Session
run s [] = s
run s (o ∷ os) = run (step s o) os

abbrev pub holds : Option String → String → Bool
holds none k = false
holds (some url) k = str_eq url k

-- The factory answers a URL that is neither empty nor alive.
abbrev pub IsFresh : List String → Operation → Type 0
IsFresh alive (sets_reference blob url) = (str_eq url "" ≡ false) × (includes alive url ≡ false)
IsFresh alive (sets_generated blob url) = (str_eq url "" ≡ false) × (includes alive url ≡ false)
IsFresh alive _ = Unit

abbrev pub AreFresh : Session → List Operation → Type 0
AreFresh s [] = Unit
AreFresh s (o ∷ os) = IsFresh s.alive o × AreFresh (step s o) os

-- A URL is alive exactly when the store holds it; the two that it holds differ and are not empty.
pub record IsTidy (s : Session) : Type 0 where
  pub exact :
      (k : String)
      → includes s.alive k ≡ (holds s.store.reference_url k || holds s.store.generated_url k)
  pub apart :
      (k : String) → (holds s.store.reference_url k && holds s.store.generated_url k) ≡ false
  pub not_empty : (holds s.store.reference_url "" || holds s.store.generated_url "") ≡ false

includes-drop_url :
    (url k : String) (xs : List String)
    → includes (drop_url url xs) k ≡ (includes xs k && not (str_eq url k))
includes-drop_url url k [] = refl
includes-drop_url url k (x ∷ xs) =
    ground (arith, includes-drop_url url k xs, eq_iff x url, eq_iff x k, eq_iff url k)

-- Revoking the URL of a slot takes away that URL and no other.
includes-revoke :
    (slot : Option String) (k : String) (alive : List String)
    → holds slot "" ≡ false
    → includes (registered (revoke slot) alive) k ≡ (includes alive k && not (holds slot k))
includes-revoke none k alive h = ground arith
includes-revoke (some url) k alive h = ground (arith, includes-drop_url url k alive)

registered-append :
    (xs ys : List UrlCall) (alive : List String)
    → registered (xs ++ ys) alive ≡ registered ys (registered xs alive)
registered-append [] ys alive = refl
registered-append (create_object_url url ∷ xs) ys alive = registered-append xs ys (url ∷ alive)
registered-append (revoke_object_url url ∷ xs) ys alive =
    registered-append xs ys (drop_url url alive)

slot_not_empty : (r g : Bool) → (r || g) ≡ false → (r ≡ false) × (g ≡ false)
slot_not_empty r g h = ground arith

-- A slot takes a fresh URL: what it held is revoked, the other slot's URL stays alive.
exact_set :
    (alive : List String) (slot other : Option String) (url k : String)
    → holds slot "" ≡ false
    → (holds slot k && holds other k) ≡ false
    → includes alive k ≡ (holds slot k || holds other k)
    → includes (url ∷ registered (revoke slot) alive) k ≡ (str_eq url k || holds other k)
exact_set alive slot other url k e a x = ground (arith, includes-revoke slot k alive e)

apart_set :
    (alive : List String) (slot other : Option String) (url k : String)
    → includes alive url ≡ false
    → includes alive url ≡ (holds slot url || holds other url)
    → (str_eq url k && holds other k) ≡ false
apart_set alive slot none url k f x = ground arith
apart_set alive slot (some u) url k f x = ground (arith, eq_iff url k, eq_iff u k, eq_iff u url)

exact_clear :
    (alive : List String) (slot other : Option String) (k : String)
    → holds slot "" ≡ false
    → (holds slot k && holds other k) ≡ false
    → includes alive k ≡ (holds slot k || holds other k)
    → includes (registered (revoke slot) alive) k ≡ holds other k
exact_clear alive slot other k e a x = ground (arith, includes-revoke slot k alive e)

swap_or : (a b : Bool) → (a || b) ≡ (b || a)
swap_or a b = ground arith

swap_and : (a b : Bool) → (a && b) ≡ (b && a)
swap_and a b = ground arith

step-IsTidy : (s : Session) (o : Operation) → IsFresh s.alive o → IsTidy s → IsTidy (step s o)
unfolding apply
step-IsTidy s (sets_reference blob url) f v =
    let r = s.store.reference_url in
    let g = s.store.generated_url in
    let (er, eg) = slot_not_empty (holds r "") (holds g "") v.not_empty in
    record {
      exact = λ k.
          rw (registered-append (revoke r) (create_object_url url ∷ []) s.alive)
            (exact_set s.alive r g url k er (v.apart k) (v.exact k));
      apart = λ k. apart_set s.alive r g url k f.1 (v.exact url);
      not_empty = ground (arith, eg);
    }
step-IsTidy s (sets_generated blob url) f v =
    let r = s.store.reference_url in
    let g = s.store.generated_url in
    let (er, eg) = slot_not_empty (holds r "") (holds g "") v.not_empty in
    record {
      exact = λ k. rw (registered-append (revoke g) (create_object_url url ∷ []) s.alive) (
          exact_set s.alive g r url k eg (swap_and (holds g k) (holds r k) ∙ v.apart k)
            (v.exact k ∙ swap_or (holds r k) (holds g k))
          ∙ swap_or (str_eq url k) (holds r k));
      apart = λ k.
          swap_and (holds r k) (str_eq url k)
          ∙ apart_set s.alive g r url k f.1 (v.exact url ∙ swap_or (holds r url) (holds g url));
      not_empty = ground (arith, er);
    }
step-IsTidy s clears_reference f v =
    let r = s.store.reference_url in
    let g = s.store.generated_url in
    let (er, eg) = slot_not_empty (holds r "") (holds g "") v.not_empty in
    record {
      exact = λ k. exact_clear s.alive r g k er (v.apart k) (v.exact k);
      apart = λ k. refl;
      not_empty = eg;
    }
step-IsTidy s clears_generated f v =
    let r = s.store.reference_url in
    let g = s.store.generated_url in
    let (er, eg) = slot_not_empty (holds r "") (holds g "") v.not_empty in
    record {
      exact = λ k.
          exact_clear s.alive g r k eg (swap_and (holds g k) (holds r k) ∙ v.apart k)
            (v.exact k ∙ swap_or (holds r k) (holds g k))
          ∙ swap_or false (holds r k);
      apart = λ k. swap_and (holds r k) false;
      not_empty = ground (arith, er);
    }
step-IsTidy s disposes f v =
    let r = s.store.reference_url in
    let g = s.store.generated_url in
    let (er, eg) = slot_not_empty (holds r "") (holds g "") v.not_empty in
    record {
      exact = λ k. rw (registered-append (revoke r) (revoke g) s.alive) (
          ground (
            arith,
            includes-revoke g k (registered (revoke r) s.alive) eg,
            includes-revoke r k s.alive er,
            v.exact k,
          ));
      apart = λ k. refl;
      not_empty = refl;
    }

run-IsTidy : (s : Session) (os : List Operation) → AreFresh s os → IsTidy s → IsTidy (run s os)
run-IsTidy s [] f v = v
run-IsTidy s (o ∷ os) f v = run-IsTidy (step s o) os f.1 (step-IsTidy s o f.0 v)

abbrev pub new_session : Session
new_session = record { store = empty_store; alive = [] }

-- Whatever is recorded, generated, cleared and disposed of, the object URLs that are alive are those
-- that the store holds, if the browser answers each request with a new URL: none is leaked, and none
-- that is in use is revoked.
pub run-new_session : (os : List Operation) → AreFresh new_session os → IsTidy (run new_session os)
run-new_session os f =
    run-IsTidy new_session os f (record { exact = λ k. refl; apart = λ k. refl; not_empty = refl })
