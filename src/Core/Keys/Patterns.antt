-- ===== src/Core/Keys/Patterns.antt =====
-- Equal keys share a bucket, and a pattern stands for the keys that it becomes where it says "any".
use nvmrdisplay.Prelude.{ℕ, ◌≡◌, refl, arith, Bool, true, false, ◌&&◌, ◌||◌, ◌==◌}
use nvmrdisplay.Prelude.{if◌then◌else◌}
use nvmrdisplay.Prelude.Outcome.{Outcome, done, null, abort, stuck, ◌>>=◌}
use nvmrdisplay.Common.Domain.{domain_equal}
use nvmrdisplay.Common.Domain.Equal.{domain_hash-domain_equal}
use nvmrdisplay.Core.Keys.{
  Key, type_any, class_any, key_equal, key_is_pattern, key_pattern_match, key_hash,
}

equal_parts :
    (x : Outcome Bool) (t c : Bool)
    → (x >>= λ e. done (e && t && c)) ≡ done true
    → (x ≡ done true) × (t ≡ true) × (c ≡ true)
equal_parts (done true) true true h = (refl, refl, refl)
equal_parts (done true) true false h = absurd (cc)
equal_parts (done true) false c h = absurd (cc)
equal_parts (done false) t c h = absurd (cc)
equal_parts null t c h = absurd (cc)
equal_parts abort t c h = absurd (cc)
equal_parts stuck t c h = absurd (cc)

-- Two keys, not at one place, that `avahi_key_equal` finds equal have the same hash, whether `char` is
-- signed or not.
pub key_hash-key_equal :
    (signed : Bool) (a b : Key)
    → key_equal false a b ≡ done true
    → key_hash signed a ≡ key_hash signed b
unfolding key_equal key_hash
key_hash-key_equal signed a b h =
    let (names, kinds, classes) =
      equal_parts (domain_equal false a.name b.name) (a.kind == b.kind) (a.clazz == b.clazz) h in
    let k : a.kind ≡ b.kind = ground (arith, kinds) in
    let c : a.clazz ≡ b.clazz = ground (arith, classes) in
    rw (domain_hash-domain_equal signed a.name b.name names, k, c) refl

-- The pattern with the type and the class of the key where it has "any".
abbrev pub filled : Key → Key → Key
filled pattern k = record pattern {
  kind = if pattern.kind == type_any then k.kind else pattern.kind;
  clazz = if pattern.clazz == class_any then k.clazz else pattern.clazz;
}

same_or_any : (a b any : ℕ) → ((a == b) || (a == any)) ≡ ((if a == any then b else a) == b)
same_or_any a b any = ground arith

-- A key, which is no pattern, matches a pattern exactly if it is equal to the pattern with the type and
-- the class of the key in place of "any"; the names decide as in `avahi_domain_equal`, its failed
-- asserts included.
pub key_pattern_match-filled :
    (pattern k : Key)
    → key_is_pattern k ≡ false
    → key_pattern_match false pattern k ≡ key_equal false (filled pattern k) k
unfolding key_pattern_match key_equal
key_pattern_match-filled pattern k single =
    rw
      (
        single,
        same_or_any pattern.kind k.kind type_any,
        same_or_any pattern.clazz k.clazz class_any,
      )
      refl
