-- ===== src/Quotes/Tests/Locks.antt =====
-- A store with room for one lock, and a submission that takes it while another waits.
use interiors_api_client.Common.{
  ◌≡◌, refl, Bool, true, false, Option, none, some, if◌then◌else◌, [], arith, ◌==◌,
}
use interiors_api_client.Common.Text.{Text, text, text_eq}
use interiors_api_client.Common.Text.Laws.{text_eq_refl, text_eq_iff}
use interiors_api_client.Common.Exec.{ok, Exec}
use interiors_api_client.Quotes.Request.{full_home}
use interiors_api_client.Quotes.Desk.{Services}
use interiors_api_client.Quotes.Normalize.{NormalizedQuoteData, generate_fingerprint}
use interiors_api_client.Quotes.Guard.{is_duplicate_submission}
use interiors_api_client.Quotes.Interleaving.{
  waiting, holding, Running, IsLockStore, admitted, Reach, here, next, IsExclusive,
}
use interiors_api_client.Quotes.Exclusion.{Reach-IsExclusive}
use interiors_api_client.Quotes.Tests.{answering}

abbrev is_held : Option Text → Text → Bool
is_held none key = false
is_held (some k) key = text_eq k key

abbrev take_lock : Text → Exec (Option Text) Bool
take_lock key none = (ok true, some key)
take_lock key (some k) = (ok false, some k)

abbrev drop_lock : Text → Exec (Option Text) (Unit {0})
drop_lock key none = (ok tt, none)
drop_lock key (some k) = (ok tt, if text_eq k key then none else some k)

abbrev one_lock : Services (Option Text)
one_lock = record (answering (λ i w. (ok none, w)) (λ i f r w. (ok 1, w))) {
  lock_set = λ key v ttl nx. take_lock key;
  lock_delete = drop_lock;
}

take_lock-takes :
    (key : Text) (w : Option Text)
    → (take_lock key w).0 ≡ ok true
    → (is_held w key ≡ false) × (is_held (take_lock key w).1 key ≡ true)
take_lock-takes key none h = (refl, text_eq_refl key)
take_lock-takes key (some k) h = absurd (ground arith)

take_lock-keeps :
    (key other : Text) (w : Option Text)
    → is_held w other ≡ true
    → is_held (take_lock key w).1 other ≡ true
take_lock-keeps key other none h = absurd (cc)
take_lock-keeps key other (some k) h = h

drop_lock-spares :
    (key other : Text) (w : Option Text)
    → text_eq key other ≡ false
    → is_held w other ≡ true
    → is_held (drop_lock key w).1 other ≡ true
drop_lock-spares key other none e h = h
drop_lock-spares key other (some k) e h = ground (arith, text_eq_iff k key)

one_lock-IsLockStore : IsLockStore one_lock is_held
one_lock-IsLockStore = record {
  takes = take_lock-takes;
  keeps = take_lock-keeps;
  spares = drop_lock-spares;
}

abbrev before : Running (Option Text)
before = record { desk = record { calls = []; outside = none }; phase = λ p. waiting }

abbrev plans : NormalizedQuoteData
plans = record {
  calculator = full_home;
  specifications_key = text "2bhk";
  email = text "ann@x.io";
  phone = text "123";
  package_name = none;
  city = text "Pune";
  state = text "MH";
  country = text "IN";
}

abbrev fingerprint_of : Text
fingerprint_of = generate_fingerprint one_lock.sha256 one_lock.config plans

abbrev after : Running (Option Text)
after = record {
  desk = (is_duplicate_submission one_lock plans before.desk).1;
  phase = λ q. if 3 == q then holding fingerprint_of else waiting;
}

one_admitted : Reach one_lock is_held before after
unfolding is_duplicate_submission
one_admitted = next here (admitted 3 plans fingerprint_of refl refl refl)

Reach-IsExclusive_example : IsExclusive one_lock is_held after
Reach-IsExclusive_example =
    Reach-IsExclusive one_lock is_held one_lock-IsLockStore (λ p. refl) one_admitted
