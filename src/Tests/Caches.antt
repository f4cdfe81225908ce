-- ===== src/Tests/Caches.antt =====
-- The block cache of internal/store/blockcache over a store that blocks one bucket.
use forwardlimit.Common.{ℕ, suc, ◌≡◌, ◌<◌, ◌⊎◌, refl, inr, true, false, none, [], ◌∷◌, arith}
use forwardlimit.Common.Int.{pos, negsuc, increment}
use forwardlimit.Common.Text.{Text, codes, text_eq, text_eq→eq}
use forwardlimit.Common.Assoc.{lookup}
use forwardlimit.Store.{Store, Key, key_string, ok, sub_time, add_time, Time}
use forwardlimit.Store.Blockcache.{Blockcache, live, consume, sweep, new}
use forwardlimit.Store.Blockcache.Steps.{here, next, hit, sweeps}
use forwardlimit.Store.Blockcache.Verdicts.{IsBacked, Held, consume-backed}
use forwardlimit.Store.Blockcache.Entries.{IsBounded, new-IsBounded, Reach-IsBounded}
use forwardlimit.Store.Blockcache.Expiry.{reading, IsMonotone, ExpiresBy, consume-ExpiresBy}
use forwardlimit.Tests.{ticking, five_a_minute}

abbrev client : Text
client = codes "login:client"

abbrev client_key : Key
client_key = record { limiter = codes "login"; bucket = codes "client" }

-- Blocks that bucket for 90 seconds, and no other.
abbrev blocking : Store ℕ
blocking = record {
  consume = λ k r w. (
    ok (record {
      blocked = text_eq (key_string k) client;
      count = pos 6;
      retry_after = pos 90_000_000_000;
    }),
    suc w,
  );
  take = λ k b w. (ok (record { allowed = true; remaining = pos 0; retry_after = pos 0 }), suc w);
  close = λ w. (none, w);
}

abbrev cached : Blockcache
cached = record {
  max_len = pos 2;
  max_ttl = pos 60_000_000_000;
  sweep_every = pos 10_000_000_000;
  entries = (client, 100) ∷ [];
  hits = pos 0;
  stopped = false;
}

abbrev IsClient : Text → Time → Type 0
IsClient k u = k ≡ client

blocking-IsBacked : IsBacked ticking blocking IsClient
blocking-IsBacked key rule w res u e b l = text_eq→eq (key_string key) client (ground arith)

consume-backed_example :
    let asked = live ticking (lookup client cached.entries) 9 in
    let r = consume ticking blocking client_key five_a_minute (cached, 9) in
    Held ticking blocking IsClient r.1.0
    × (((asked.0 ≡ none) × (r.0 ≡ (blocking.consume client_key five_a_minute asked.1).0))
        ⊎ ((until : Time) × (client ≡ client)
            × (9 < until)
            × (r.0
                ≡ ok (record {
                  blocked = true;
                  count = negsuc 0;
                  retry_after = sub_time until (ticking.now asked.1).0;
                }))))
consume-backed_example =
    consume-backed ticking blocking IsClient client_key five_a_minute cached 9 blocking-IsBacked
      (refl, tt)

ticking-IsMonotone : IsMonotone ticking
ticking-IsMonotone w = omega arith

consume-ExpiresBy_example :
    let (r, (c, w)) = consume ticking blocking client_key five_a_minute (cached, 9) in
    (c.max_ttl ≡ pos 60_000_000_000) × ExpiresBy (add_time (reading ticking w) c.max_ttl) c
consume-ExpiresBy_example =
    consume-ExpiresBy ticking ticking-IsMonotone blocking client_key five_a_minute cached 9
      (λ v. omega arith) (omega arith) (omega arith, tt)

abbrev empty_cache : Blockcache
empty_cache = new (pos 2) (pos 60_000_000_000) (pos 0)

Reach-IsBounded_example : IsBounded (sweep ticking (record empty_cache { hits = pos 1 }) 9).0
unfolding new increment
Reach-IsBounded_example =
    Reach-IsBounded ticking (new-IsBounded (pos 2) (pos 60_000_000_000) (pos 0))
      (next (next here hit) (sweeps 9))

cached-IsBounded : IsBounded cached
unfolding lookup
cached-IsBounded = record { distinct = (refl, tt); bounded = inr (omega arith) }
