-- ===== src/Codec/Reassembly/Calls.antt =====
-- Single calls of `insert`, the sequence of calls, and the end of the fragmenter's loop.
use ipv_8_public_base_statio.Common.{
  ℕ, zero, suc, ◌-◌, ◌≤◌, ◌<◌, ◌≡◌, refl, List, [], ◌∷◌, none, some, length, Result, ok, ◌>>=◌,
  arith, lt→ltb, length-retain_le,
}
use ipv_8_public_base_statio.Codec.Header.{IPv8Header}
use ipv_8_public_base_statio.Codec.Decode.{DecodeError, Decoded, decode}
use ipv_8_public_base_statio.Codec.Fragment.{FragmentInfo, fragment_loop}
use ipv_8_public_base_statio.Codec.Reassembly.{
  Group, Inserted, Reassembler, check_fragment, find_group, insert, insert_in, is_live, key_of,
  max_groups, new_group, reap, reassembly_timeout,
}
use ipv_8_public_base_statio.Codec.Reassembly.Maps.{find_group-retain, find_group-retain_none}
use ipv_8_public_base_statio.Codec.Reassembly.Part.{IsFragmentOf}
use ipv_8_public_base_statio.Codec.Reassembly.Single.{group_at}

module _ (now : ℕ) (r : Reassembler) (hdr : IPv8Header) (payload : List ℕ) (frag : FragmentInfo)
    (e : check_fragment hdr payload ≡ ok frag) where
  pub insert_found :
      (g : Group)
      → find_group (key_of hdr frag) r.groups ≡ some g
      → now - g.created < reassembly_timeout
      → insert now r hdr payload ≡ insert_in (reap now r) (key_of hdr frag) g hdr payload frag
  unfolding insert reap is_live
  insert_found g found fresh =
      rw
        (
          e,
          insert,
          find_group-retain (is_live now) (key_of hdr frag) r.groups g found (lt→ltb _ _ fresh),
        )
        refl

  pub insert_fresh :
      find_group (key_of hdr frag) r.groups ≡ none
      → length r.groups < max_groups
      → insert now r hdr payload
        ≡ insert_in (reap now r) (key_of hdr frag) (new_group now hdr) hdr payload frag
  unfolding insert reap
  insert_fresh missing room =
      rw
        (
          e,
          insert,
          find_group-retain_none (is_live now) (key_of hdr frag) r.groups missing,
          lt→ltb (length (reap now r).groups) max_groups
              (omega (arith, length-retain_le (is_live now) r.groups)),
        )
        refl

-- The packets arrive one after the other, the packet `i` at the time `clock i`; what the last call
-- of `insert` returned.
unfoldable pub feed :
    (ℕ → ℕ)
    → ℕ
    → Reassembler
    → Inserted
    → List (List ℕ)
    → Result DecodeError (Reassembler × Inserted)
feed clock i r result [] = ok (r, result)
feed clock i r result (packet ∷ packets) = do
  d ← decode packet
  let (r', result') = insert (clock i) r d.header d.payload
  feed clock (suc i) r' result' packets

pub feed_step :
    (clock : ℕ → ℕ) (i : ℕ) (r r' : Reassembler) (before result : Inserted) (packet : List ℕ)
    (packets : List (List ℕ)) (d : Decoded)
    → decode packet ≡ ok d
    → insert (clock i) r d.header d.payload ≡ (r', result)
    → feed clock i r before (packet ∷ packets) ≡ feed clock (suc i) r' result packets
unfolding feed
feed_step clock i r r' before result packet packets d e inserted = rw (e, feed) (rw inserted refl)

pub new_group-group_at :
    (d : Decoded) (frag : FragmentInfo) (hdr : IPv8Header) (payload : List ℕ) (now : ℕ)
    → IsFragmentOf d frag hdr payload
    → new_group now hdr ≡ group_at d now 0
unfolding new_group
new_group-group_at d frag hdr payload now f = λ i. record {
  orig_ext = none;
  flags = f.flags_eq i;
  version = f.version_eq i;
  min_compat_ver = f.compat_eq i;
  hop_limit = f.hop_eq i;
  src = f.src_eq i;
  dst = f.dst_eq i;
  chunks = [];
  pos = 0;
  total = none;
  payload = [];
  created = now;
}

pub loop_ended :
    (fuel : ℕ) (d : Decoded) (chunk id offset pos : ℕ) (outs : List (List ℕ))
    → length d.payload ≤ pos
    → fragment_loop fuel d chunk id offset pos ≡ ok outs
    → outs ≡ []
unfolding fragment_loop
loop_ended zero d chunk id offset pos outs over e = cc
loop_ended (suc f) d chunk id offset pos outs over e = ground arith
