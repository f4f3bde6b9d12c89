-- ===== src/Codec/Reassembly.antt =====
-- The reassembler (src/core/ipv8-codec/src/fragment.rs, from ReassemblyError on). The clock is an
-- argument, in nanoseconds; the hash map of the groups and the ordered map of the chunks are
-- association lists.
pub mod Maps
pub mod Part
pub mod Sound
pub mod History
pub mod Single
pub mod Steps
pub mod Calls
pub mod InOrder
pub mod RoundTrip
pub mod Bounds
pub mod Faults
use ipv_8_public_base_statio.Common.{
  ℕ, zero, suc, ◌+◌, ◌-◌, ◌*◌, ◌%◌, Bool, true, false, not, List, [], ◌∷◌, ◌++◌, Option, none, some,
  ltb, leb, ◌==◌, if◌then◌else◌, length, ◌&&◌, ◌||◌, Result, ok, err, diverged, ◌>>=◌, ◌>>◌,
  reject_if, is_some, retain, str_eq, drop,
}
use ipv_8_public_base_statio.Common.Bytes.{u16}
use ipv_8_public_base_statio.Common.Words.{clear_bit}
use ipv_8_public_base_statio.Codec.Address.{IPv8Address, to_bytes}
use ipv_8_public_base_statio.Codec.Header.{
  IPv8Header, ExtensionHeader, attach_ext_headers, fragment_bit, has_extension_bit, is_fragment,
  is_fragment_type,
}
use ipv_8_public_base_statio.Codec.Encode.{EncodeError, encode_header}
use ipv_8_public_base_statio.Codec.Fragment.{FragmentInfo, parse_info}

abbrev pub max_groups : ℕ
max_groups = 64

abbrev pub max_group_bytes : ℕ
max_group_bytes = 65467

-- 30 seconds.
abbrev pub reassembly_timeout : ℕ
reassembly_timeout = 30000000000

pub data ReassemblyError : Type 0 where
  flag_mismatch not_first_ext overlap beyond_total misaligned oversize : ReassemblyError
  offset_overflow too_many_groups : ReassemblyError

-- The key of a group: both addresses as bytes, and the identifier.
pub record GroupKey : Type 0 where
  pub src : List ℕ
  pub dst : List ℕ
  pub id : ℕ

unfoldable pub same_key : GroupKey → GroupKey → Bool
same_key a b = str_eq a.src b.src && (str_eq a.dst b.dst && (a.id == b.id))

pub record Group : Type 0 where
  pub orig_ext : Option (List ExtensionHeader)
  pub flags : ℕ
  pub version : ℕ
  pub min_compat_ver : ℕ
  pub hop_limit : ℕ
  pub src : IPv8Address
  pub dst : IPv8Address
  pub chunks : List (ℕ × List ℕ)
  pub pos : ℕ
  pub total : Option ℕ
  pub payload : List ℕ
  pub created : ℕ

pub record Reassembler : Type 0 where
  pub groups : List (GroupKey × Group)

-- What a call of `insert` ends with. The source's `expect` on the encoder's result is a panic.
pub data Inserted : Type 0 where
  rejected : ReassemblyError → Inserted
  waiting : Inserted
  complete : List ℕ → Inserted
  panicked : EncodeError → Inserted
  encoder_diverged : Inserted

-- The maps.
unfoldable pub find_chunk : ℕ → List (ℕ × List ℕ) → Option (List ℕ)
find_chunk k [] = none
find_chunk k ((s, b) ∷ cs) = let rest = find_chunk k cs in if s == k then some b else rest

unfoldable pub put_chunk : ℕ → List ℕ → List (ℕ × List ℕ) → List (ℕ × List ℕ)
put_chunk k v [] = (k, v) ∷ []
put_chunk k v ((s, b) ∷ cs) =
    let rest = put_chunk k v cs in if s == k then (k, v) ∷ cs else (s, b) ∷ rest

unfoldable pub remove_chunk : ℕ → List (ℕ × List ℕ) → List (ℕ × List ℕ)
remove_chunk k [] = []
remove_chunk k ((s, b) ∷ cs) =
    let rest = remove_chunk k cs in if s == k then rest else (s, b) ∷ rest

unfoldable pub find_group : GroupKey → List (GroupKey × Group) → Option Group
find_group k [] = none
find_group k ((l, g) ∷ gs) = let rest = find_group k gs in if same_key l k then some g else rest

unfoldable pub put_group : GroupKey → Group → List (GroupKey × Group) → List (GroupKey × Group)
put_group k v [] = (k, v) ∷ []
put_group k v ((l, g) ∷ gs) =
    let rest = put_group k v gs in if same_key l k then (l, v) ∷ gs else (l, g) ∷ rest

unfoldable pub remove_group : GroupKey → List (GroupKey × Group) → List (GroupKey × Group)
remove_group k [] = []
remove_group k ((l, g) ∷ gs) =
    let rest = remove_group k gs in if same_key l k then rest else (l, g) ∷ rest

-- The guards in front of the first change: the fragment header of an acceptable fragment.
unfoldable pub check_fragment : IPv8Header → List ℕ → Result ReassemblyError FragmentInfo
check_fragment hdr payload = elim hdr.ext_headers [
  | [] ↦ err flag_mismatch
  | first ∷ others ↦ elim (parse_info first) [
    | none ↦ err flag_mismatch
    | some frag ↦ do
      reject_if (not (is_fragment hdr.flags)) flag_mismatch
      reject_if (not (is_fragment_type first.ext_type)) not_first_ext
      reject_if (ltb 65528 (frag.offset * 8)) offset_overflow
      reject_if (frag.more && not (length payload % 8 == 0)) misaligned
      ok frag
  ]
]

-- `created.elapsed() < REASSEMBLY_TIMEOUT`.
unfoldable pub is_live : ℕ → GroupKey × Group → Bool
is_live now (k, g) = ltb (now - g.created) reassembly_timeout

unfoldable pub reap : ℕ → Reassembler → Reassembler
unfolding is_live
reap now r = record { groups = retain (is_live now) r.groups }

unfoldable pub new_group : ℕ → IPv8Header → Group
new_group now hdr = record {
  orig_ext = none;
  flags = clear_bit fragment_bit (clear_bit has_extension_bit hdr.flags);
  version = hdr.version;
  min_compat_ver = hdr.min_compat_ver;
  hop_limit = hdr.hop_limit;
  src = hdr.src_addr;
  dst = hdr.dst_addr;
  chunks = [];
  pos = 0;
  total = none;
  payload = [];
  created = now;
}

-- The guards on the group, and the total that a last fragment sets.
unfoldable pub admit : Group → Bool → ℕ → ℕ → Result ReassemblyError Group
admit g more start len = do
  reject_if (ltb start g.pos) overlap
  reject_if (elim g.total [ none ↦ false | some t ↦ ltb t (start + len) ]) beyond_total
  if more then ok g else do
    reject_if (ltb max_group_bytes (start + len)) oversize
    reject_if (elim g.total [ none ↦ false | some old ↦ not (old == start + len) ]) beyond_total
    ok (record g { total = some (start + len) })

-- The chain of the first fragment, and the chunk. The flag tells whether the chunk took the place
-- of another.
unfoldable pub store : Group → List ExtensionHeader → ℕ → List ℕ → Group × Bool
store g others start payload = (
  record g {
    orig_ext = if start == 0 && not (is_some g.orig_ext) then some others else g.orig_ext;
    chunks = put_chunk start payload g.chunks;
  },
  is_some (find_chunk start g.chunks),
)

-- The loop that moves the chunks that follow on each other to the payload. A round takes a chunk
-- away, so that a group has as many rounds as chunks at most.
unfoldable pub advance : ℕ → Group → Group
advance zero g = g
advance (suc rounds) g = elim (find_chunk g.pos g.chunks) [
  | none ↦ g
  | some bytes ↦ advance rounds (record g {
    chunks = remove_chunk g.pos g.chunks;
    payload = g.payload ++ bytes;
    pos = g.pos + length bytes;
  })
]

-- `matches!(g.total, Some(t) if g.pos == t)`.
unfoldable pub is_done : Group → Bool
is_done g = elim g.total [ none ↦ false | some t ↦ g.pos == t ]

unfoldable pub rebuilt_header : Group → ℕ → IPv8Header
rebuilt_header g total =
    attach_ext_headers
      (record {
        version = g.version;
        min_compat_ver = g.min_compat_ver;
        flags = g.flags;
        payload_len = u16 total;
        hop_limit = g.hop_limit;
        next_header = 0;
        src_addr = g.src;
        dst_addr = g.dst;
        ext_headers = [];
      })
      (elim g.orig_ext [ none ↦ [] | some chain ↦ chain ])

unfoldable pub emit : Group → Inserted
unfolding rebuilt_header
emit g = elim (encode_header (rebuilt_header g (elim g.total [ none ↦ 0 | some t ↦ t ])) []) [
  | ok written ↦ complete (written.1 ++ g.payload)
  | err e ↦ panicked e
  | diverged ↦ encoder_diverged
]

-- What follows on the choice of the group.
unfoldable pub insert_in :
    Reassembler → GroupKey → Group → IPv8Header → List ℕ → FragmentInfo → Reassembler × Inserted
insert_in r key g hdr payload frag = elim (admit g frag.more (frag.offset * 8) (length payload)) [
  | err e ↦ (record { groups = put_group key g r.groups }, rejected e)
  | diverged ↦ (record { groups = put_group key g r.groups }, encoder_diverged)
  | ok admitted ↦
      let (stored, displaced) = store admitted (drop 1 hdr.ext_headers) (frag.offset * 8) payload in
      if displaced
      then (record { groups = put_group key stored r.groups }, rejected overlap)
      else let moved = advance (length stored.chunks) stored in
        if is_done moved
        then (record { groups = remove_group key r.groups }, emit moved)
        else (record { groups = put_group key moved r.groups }, waiting)
]

unfoldable pub key_of : IPv8Header → FragmentInfo → GroupKey
key_of hdr frag = record { src = to_bytes hdr.src_addr; dst = to_bytes hdr.dst_addr; id = frag.id }

-- The room for a new group; the second call of `retain` is the source's.
unfoldable pub insert : ℕ → Reassembler → IPv8Header → List ℕ → Reassembler × Inserted
unfolding reap key_of
insert now r hdr payload = elim (check_fragment hdr payload) [
  | err e ↦ (r, rejected e)
  | diverged ↦ (r, encoder_diverged)
  | ok frag ↦
      let key = key_of hdr frag in
      let live = reap now r in
      elim (find_group key live.groups) [
        | some g ↦ insert_in live key g hdr payload frag
        | none ↦
            if ltb (length live.groups) max_groups
            then insert_in live key (new_group now hdr) hdr payload frag
            else let again = reap now live in
              if leb max_groups (length again.groups)
              then (again, rejected too_many_groups)
              else insert_in again key (new_group now hdr) hdr payload frag
      ]
]
