-- ===== src/Fec/Receiver.antt =====
-- The receiver's cache and the reconstruction (src/core/ipv8-fec/src/rx.rs). The hash map from
-- counters to frames is an association list in the order of arrival.
pub mod Cache
use ipv_8_public_base_statio.Common.{
  ℕ, zero, suc, ◌+◌, ◌-◌, ◌*◌, List, [], ◌∷◌, ◌++◌, Option, none, some, Bool, true, false, not,
  ◌&&◌, ◌||◌, max, ltb, leb, ◌==◌, if◌then◌else◌, length, get_or, take, drop, contains, Result, ok,
  err, diverged, ◌>>=◌, ◌>>◌, reject_if, is_some,
}
use ipv_8_public_base_statio.Common.Bytes.{of_be16, of_be}
use ipv_8_public_base_statio.Fec.{
  FecError, too_short, bad_k, body_too_short, xor_len_mismatch, bad_member_len, sanity_check,
  fec_min_k, fec_max_k, default_rx_cache, max_seen_groups, recovery_fixed_body, frame_header_size,
  data_min_frame, data_counter, xor_into,
}
use ipv_8_public_base_statio.Fec.Sender.{tunnel_version, fec_frame_type}

abbrev pub data_frame_type : ℕ
data_frame_type = 2

abbrev pub Cache : Type 0
Cache = List (ℕ × List ℕ)

pub record FecRx : Type 0 where
  pub cache : Cache
  pub order : List ℕ
  pub limit : ℕ
  pub seen_groups : List ℕ
  pub recovered : ℕ
  pub abandoned : ℕ
  pub dup_recovery : ℕ

unfoldable pub new_rx : ℕ → FecRx
new_rx limit = record {
  cache = [];
  order = [];
  limit = if limit == 0 then default_rx_cache else limit;
  seen_groups = [];
  recovered = 0;
  abandoned = 0;
  dup_recovery = 0;
}

abbrev pub lookup : Cache → ℕ → Option (List ℕ)
lookup [] c = none
lookup ((k, f) ∷ rest) c = let later = lookup rest c in if k == c then some f else later

-- The value of a key that is there is replaced.
abbrev pub replace : Cache → ℕ → List ℕ → Cache
replace [] c frame = []
replace ((k, f) ∷ rest) c frame =
    let later = replace rest c frame in if k == c then (k, frame) ∷ rest else (k, f) ∷ later

abbrev pub remove : Cache → ℕ → Cache
remove [] c = []
remove ((k, f) ∷ rest) c = let later = remove rest c in if k == c then rest else (k, f) ∷ later

-- The loop `while cache.len() > limit`; with an empty `order` the source would not leave it.
unfoldable pub evict : ℕ → Cache → List ℕ → Result FecError (Cache × List ℕ)
evict limit cache [] = if ltb limit (length cache) then diverged else ok (cache, [])
evict limit cache (oldest ∷ order) =
    let rest = evict limit (remove cache oldest) order in
    if ltb limit (length cache) then rest else ok (cache, oldest ∷ order)

unfoldable pub observe_data : FecRx → List ℕ → Result FecError FecRx
observe_data r frame = do
  reject_if (ltb (length frame) data_min_frame) (too_short (length frame))
  counter ← data_counter frame
  if is_some (lookup r.cache counter)
      then ok (record r { cache = replace r.cache counter frame })
      else do
        (cache, order) ←
            evict r.limit (r.cache ++ ((counter, frame) ∷ [])) (r.order ++ (counter ∷ []))
        ok (record r { cache = cache; order = order })

abbrev pub fixed_end : ℕ
fixed_end = frame_header_size + recovery_fixed_body

-- The sequence number and the size of the group.
unfoldable pub check_head : List ℕ → Result FecError (ℕ × ℕ)
check_head frame = do
  reject_if (ltb (length frame) fixed_end) (body_too_short fixed_end (length frame))
  reject_if (not (get_or frame 0 0 == tunnel_version) || not (get_or frame 1 0 == fec_frame_type))
      sanity_check
  let group_seq = of_be (take 8 (drop 10 frame))
  let k = get_or frame 18 0
  reject_if (not (leb fec_min_k k && leb k fec_max_k)) (bad_k k)
  reject_if (ltb (length frame) (fixed_end + k * 10))
      (body_too_short (fixed_end + k * 10) (length frame))
  ok (group_seq, k)

unfoldable pub read_counters : List ℕ → ℕ → ℕ → List ℕ
read_counters frame offset zero = []
read_counters frame offset (suc n) =
    of_be (take 8 (drop offset frame)) ∷ read_counters frame (offset + 8) n

unfoldable pub read_lens : List ℕ → ℕ → ℕ → List ℕ
read_lens frame offset zero = []
read_lens frame offset (suc n) =
    of_be16 (get_or frame offset 0) (get_or frame (offset + 1) 0) ∷ read_lens frame (offset + 2) n

unfoldable pub max_of : List ℕ → ℕ
max_of [] = 0
max_of (l ∷ ls) = max l (max_of ls)

unfoldable pub check_lens : List ℕ → Result FecError (Unit {0})
check_lens [] = ok tt
check_lens (l ∷ ls) =
    let rest = check_lens ls in if ltb l data_min_frame then err (bad_member_len l) else rest

-- The counters and the lengths of the members.
unfoldable pub check_members : List ℕ → ℕ → Result FecError (List ℕ × List ℕ)
check_members frame k = do
  let lens = read_lens frame (fixed_end + k * 8) k
  let xor_len = length frame - (fixed_end + k * 10)
  reject_if (not (xor_len == max_of lens)) (xor_len_mismatch (max_of lens) xor_len)
  check_lens lens
  ok (read_counters frame fixed_end k, lens)

-- The loop over the members: the first that is missing and how many are, up to two.
unfoldable pub scan : Cache → List ℕ → ℕ → Option ℕ → ℕ → Option ℕ × ℕ
scan cache [] i missing count = (missing, count)
scan cache (c ∷ cs) i missing count =
    let present = scan cache cs (i + 1) missing count in
    let absent = scan cache cs (i + 1) (some i) (count + 1) in
    if is_some (lookup cache c)
    then present
    else if ltb 1 (count + 1)
    then (missing, count + 1)
    else absent

abbrev pub xor_found : List ℕ → Option (List ℕ) → List ℕ
xor_found recon none = recon
xor_found recon (some m) = xor_into recon m

-- The XOR with every member but the one at `missing`.
unfoldable pub xor_others : Cache → List ℕ → ℕ → ℕ → List ℕ → List ℕ
xor_others cache [] missing i recon = recon
xor_others cache (c ∷ cs) missing i recon =
    if i == missing
    then xor_others cache cs missing (i + 1) recon
    else xor_others cache cs missing (i + 1) (xor_found recon (lookup cache c))

-- The rebuilt frame, cut to its length and checked.
unfoldable pub rebuild : Cache → List ℕ → List ℕ → List ℕ → ℕ → Result FecError (List ℕ)
rebuild cache counters lens xor_segment missing = do
  let recon = xor_others cache counters missing 0 xor_segment
  let want = get_or lens missing 0
  reject_if (ltb (length recon) want) (xor_len_mismatch want (length recon))
  let recon = take want recon
  reject_if (not (get_or recon 0 0 == tunnel_version) || not (get_or recon 1 0 == data_frame_type))
      sanity_check
  counter ← data_counter recon
  reject_if (not (counter == get_or counters missing 0)) sanity_check
  ok recon

abbrev pub count_rebuilt :
    FecRx → Result FecError (List ℕ) → FecRx × Result FecError (Option (List ℕ))
count_rebuilt r (ok recon) = (record r { recovered = r.recovered + 1 }, ok (some recon))
count_rebuilt r (err e) = (r, err e)
count_rebuilt r diverged = (r, diverged)

unfoldable pub decide :
    FecRx → List ℕ → List ℕ → List ℕ → Option ℕ × ℕ → FecRx × Result FecError (Option (List ℕ))
decide r counters lens xor_segment (missing, zero) = (r, ok none)
decide r counters lens xor_segment (some i, suc zero) =
    count_rebuilt r (rebuild r.cache counters lens xor_segment i)
decide r counters lens xor_segment (none, suc zero) = (r, err sanity_check)
decide r counters lens xor_segment (missing, suc (suc n)) =
    (record r { abandoned = r.abandoned + 1 }, ok none)

-- `push_back`, then `pop_front` while there are more than the limit.
abbrev pub remember : List ℕ → ℕ → List ℕ
remember groups g = drop (length groups + 1 - max_seen_groups) (groups ++ (g ∷ []))

abbrev pub on_members :
    FecRx
    → List ℕ
    → ℕ
    → ℕ
    → Result FecError (List ℕ × List ℕ)
    → FecRx × Result FecError (Option (List ℕ))
on_members r frame group_seq k (ok (counters, lens)) =
    decide (record r { seen_groups = remember r.seen_groups group_seq }) counters lens
      (drop (fixed_end + k * 10) frame) (scan r.cache counters 0 none 0)
on_members r frame group_seq k (err e) = (r, err e)
on_members r frame group_seq k diverged = (r, diverged)

abbrev pub on_head :
    FecRx → List ℕ → Result FecError (ℕ × ℕ) → FecRx × Result FecError (Option (List ℕ))
on_head r frame (ok (group_seq, k)) =
    if contains r.seen_groups group_seq
    then (record r { dup_recovery = r.dup_recovery + 1 }, ok none)
    else on_members r frame group_seq k (check_members frame k)
on_head r frame (err e) = (r, err e)
on_head r frame diverged = (r, diverged)

-- The state is kept beside the result, since an error may come after a change.
unfoldable pub accept_recovery : FecRx → List ℕ → FecRx × Result FecError (Option (List ℕ))
accept_recovery r frame = on_head r frame (check_head frame)
