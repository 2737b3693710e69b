-- ===== src/Redis/Sample.antt =====
-- A Redis server as a table of items, to run the callers on.
use app_home_services.Base.{
  ℕ, ◌+◌, ◌^◌, ◌<◌, ◌≡◌, refl, sym, ap, ◌∙◌, Bool, true, false, Option, none, some, ltb, ◌==◌,
  if◌then◌else◌, arith, from_secs,
}
use app_home_services.Base.Text.{Text, text_eq}
use app_home_services.Base.HashMap.{HashMap, get, insert, remove, get-insert, get-remove}
use app_home_services.Redis.{Redis, Item, item, live, value_of, incremented, expiring, exists_count}

abbrev pub Table : Type 0
Table = HashMap Text Item

-- An item that takes the place of another under the key, if there is one.
abbrev pub put : Text → Option Item → Table → Table
put k none s = remove k s
put k (some a) s = insert k a s

get-put :
    (k j : Text) (x : Option Item) (s : Table) → get j (put k x s) ≡ (if k == j then x else get j s)
get-put k j none s = get-remove k j s
get-put k j (some a) s = get-insert k j a s

pub live_if :
    (now : ℕ) (b : Bool) (x y : Option Item)
    → live now (if b then x else y) ≡ (if b then live now x else live now y)
live_if now true x y = refl
live_if now false x y = refl

pub live-put :
    (now : ℕ) (k j : Text) (x : Option Item) (s : Table)
    → live now (get j (put k x s)) ≡ (if k == j then live now x else live now (get j s))
live-put now k j x s = ap (live now) (get-put k j x s) ∙ live_if now (k == j) x (get j s)

pub live-incremented :
    (now : ℕ) (x : Option Item) → live now (incremented (live now x)) ≡ incremented (live now x)
live-incremented now none = refl
live-incremented now (some (item v none)) = refl
live-incremented now (some (item v (some d))) = ground arith

-- INCR refuses to pass 2^63 - 1.
abbrev pub bounded : Option ℕ → Option ℕ
bounded none = none
bounded (some n) = if ltb n (2 ^ 63) then some n else none

abbrev pub incr_to : Option ℕ → Text → Option Item → Table → Option ℕ × Table
incr_to none k x s = (none, s)
incr_to (some n) k x s = (some n, put k x s)

abbrev pub incr : ℕ → Text → Table → Option ℕ × Table
incr now k s =
    incr_to (bounded (value_of (incremented (live now (get k s))))) k
      (incremented (live now (get k s))) s

pub incr_to_reply :
    (o : Option ℕ) (k : Text) (x : Option Item) (s : Table) → (incr_to o k x s).0 ≡ o
incr_to_reply none k x s = refl
incr_to_reply (some n) k x s = refl

pub incr_to_stores :
    (now : ℕ) (o : Option ℕ) (k j : Text) (x : Option Item) (s : Table) (n : ℕ)
    → (incr_to o k x s).0 ≡ some n
    → live now (get j (incr_to o k x s).1) ≡ (if k == j then live now x else live now (get j s))
incr_to_stores now none k j x s n h = cc
incr_to_stores now (some m) k j x s n h = live-put now k j x s

pub incr_to_refused :
    (now : ℕ) (o : Option ℕ) (k j : Text) (x : Option Item) (s : Table)
    → (incr_to o k x s).0 ≡ none
    → live now (get j (incr_to o k x s).1) ≡ live now (get j s)
incr_to_refused now none k j x s h = refl
incr_to_refused now (some m) k j x s h = cc

pub bounded_some : (o : Option ℕ) (n : ℕ) → bounded o ≡ some n → o ≡ some n
bounded_some none n h = cc
bounded_some (some m) n h = ground arith

pub bounded_below : (n : ℕ) → n < 2 ^ 63 → bounded (some n) ≡ some n
bounded_below n h = ground arith

abbrev pub table_redis : Redis
table_redis = record {
  State = Table;
  stored = λ k s. get k s;
  get = λ now k s. (value_of (live now (get k s)), s);
  incr = incr;
  expire = λ now k secs s. put k (expiring (now + from_secs secs) (live now (get k s))) s;
  del = λ now k s. (exists_count (live now (get k s)), remove k s);
  set_ex = λ now k v secs s. insert k (item v (some (now + from_secs secs))) s;
  exists = λ now k s. (exists_count (live now (get k s)), s);
  get_reply = λ now k s. refl;
  get_keeps = λ now k j s. refl;
  incr_reply = λ now k s n h b. incr_to_reply _ k _ s ∙ ap bounded h ∙ bounded_below n b;
  incr_counts = λ now k s n h. bounded_some _ n (sym (incr_to_reply _ k _ s) ∙ h);
  incr_stores = λ now k j s n h.
      incr_to_stores now _ k j _ s n h
      ∙ ap (λ x. if k == j then x else live now (get j s)) (live-incremented now (get k s));
  incr_refused = λ now k j s h. incr_to_refused now _ k j _ s h;
  expire_stores = λ now k j secs s. live-put now k j _ s;
  del_stores = λ now k j s. live-put now k j none s;
  set_ex_stores =
      λ now k j v secs s. live-put now k j (some (item v (some (now + from_secs secs)))) s;
  exists_reply = λ now k s. refl;
  exists_keeps = λ now k j s. refl;
}
