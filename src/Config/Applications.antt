-- ===== src/Config/Applications.antt =====
-- internal/config/zapret_applications.go: applications compiled into profiles and strategies.
pub mod Marks
use purewrt.Prelude.{
  ℕ, suc, ◌+◌, ◌-◌, ◌*◌, ◌^◌, ◌%◌, Bool, true, false, not, ◌&&◌, ◌||◌, List, [], ◌∷◌, ◌++◌, Option,
  none, some, Result, ok, err, ◌>>=◌, any, all, ltb, leb, ◌==◌, if◌then◌else◌, length,
}
use purewrt.Text.{Text, codes, text_eq}
use purewrt.Text.Decimal.{itoa}
use purewrt.Config.Model.{
  Section, ZapretProfile, ZapretStrategy, Config, is_empty, zapret_queue_base,
}
use purewrt.Config.Candidates.{ZapretCandidate, names, resolve_strategies}

pub record ZapretApplication : Type 0 where
  pub name : Text
  pub enabled : Bool
  pub assignments : List Text

pub data CompileError : Type 0 where
  bad_application no_assignments : Text → CompileError
  bad_assignment missing_strategy : Text → Text → CompileError
  too_many : CompileError
  missing_application : Text → Text → CompileError
  missing_entry : ZapretStrategy → CompileError

abbrev pub is_word : ℕ → Bool
is_word c =
    (leb b'A' c && leb c b'Z')
    || (leb b'a' c && leb c b'z')
    || (leb b'0' c && leb c b'9')
    || c == b'_'

-- `^[A-Za-z0-9_][A-Za-z0-9_-]{0,47}$`.
abbrev pub is_application_name : Text → Bool
is_application_name [] = false
is_application_name (c ∷ s) = is_word c && all (λ d. is_word d || d == b'-') s && leb (length s) 47

-- `^[A-Za-z0-9_.:-]{1,15}$`.
abbrev pub is_device_name : Text → Bool
is_device_name s =
    all (λ c. is_word c || c == b'.' || c == b':' || c == b'-') s
    && leb 1 (length s)
    && leb (length s) 15

-- `strings.Cut` at the first `=`: what is before, what is behind, and whether there is one.
abbrev pub in_front : ℕ → Text × Text × Bool → Text × Text × Bool
in_front c (front, behind, is_cut) = (c ∷ front, behind, is_cut)

unfoldable pub cut : Text → Text × Text × Bool
cut [] = ([], [], false)
cut (c ∷ s) = let rest = in_front c (cut s) in if c == b'=' then ([], s, true) else rest

-- What `instances` holds for an application.
unfoldable pub instances_of : Text → List (Text × List Text) → List Text
instances_of name [] = []
instances_of name ((key, ids) ∷ m) =
    let rest = instances_of name m in if text_eq key name then ids else rest

unfoldable pub add_instance : Text → Text → List (Text × List Text) → List (Text × List Text)
add_instance name id [] = (name, id ∷ []) ∷ []
add_instance name id ((key, ids) ∷ m) =
    let rest = add_instance name id m in
    if text_eq key name then (key, ids ++ id ∷ []) ∷ m else (key, ids) ∷ rest

unfoldable pub group_of : Text → List (Text × ℕ) → Option ℕ
group_of candidate [] = none
group_of candidate ((key, index) ∷ m) =
    let rest = group_of candidate m in if text_eq key candidate then some index else rest

-- `c.ZapretProfiles[index].Interfaces = append(…, device)`.
unfoldable pub add_interface : ℕ → Text → List ZapretProfile → List ZapretProfile
add_interface index device [] = []
add_interface index device (p ∷ ps) =
    let rest = add_interface (index - 1) device ps in
    if index == 0 then record p { interfaces = p.interfaces ++ device ∷ [] } ∷ ps else p ∷ rest

-- The lists of the configuration that the loops fill, with `instances`.
pub record Compiled : Type 0 where
  pub profiles : List ZapretProfile
  pub strategies : List ZapretStrategy
  pub instances : List (Text × List Text)

abbrev pub new_profile : Text → Text → ZapretProfile
new_profile name device = record {
  name = name;
  enabled = true;
  interfaces = device ∷ [];
  queue_num = 0;
  fw_mark = [];
  nfqws_bin = [];
  params = [];
  lua_bundle_dir = [];
  blobs = [];
}

abbrev pub new_strategy : Text → Text → ℕ → ZapretStrategy
new_strategy name candidate count = record {
  selector_mark = (count + 1) * 2 ^ 16 % 2 ^ 32;
  library_blobs = [];
  candidate = candidate;
  name = name;
  enabled = true;
  profile = name;
  queue_num = zapret_queue_base;
  protocols = [];
  tcp_ports = [];
  udp_ports = [];
  tcp_pkt_out = 0;
  tcp_pkt_in = 0;
  udp_pkt_out = 0;
  udp_pkt_in = 0;
  preset = [];
  params = [];
}

unfoldable pub instance_name : Text → ℕ → Text
instance_name app count = app ++ (codes "_w" ++ itoa (count + 1))

-- A profile and a strategy of their own for a candidate.
unfoldable pub open_group : Text → Text → Text → Compiled → Compiled
open_group app device candidate s =
    let name = instance_name app (length (instances_of app s.instances)) in
    record {
      profiles = s.profiles ++ new_profile name device ∷ [];
      strategies = s.strategies ++ new_strategy name candidate (length s.strategies) ∷ [];
      instances = add_instance app name s.instances;
    }

-- The device joins the group of its candidate, or opens one.
abbrev pub by_group :
    Option ℕ
    → (ℕ → Result CompileError Compiled)
    → Result CompileError Compiled
    → Result CompileError Compiled
by_group none joined opened = opened
by_group (some index) joined opened = joined index

-- The loop over the assignments of an application, with `devices` and `grouped`.
unfoldable pub assign :
    List Text
    → Text
    → List Text
    → List Text
    → List (Text × ℕ)
    → Compiled
    → Result CompileError Compiled
assign known app [] devices grouped s = ok s
assign known app (raw ∷ raws) devices grouped s =
    let (device, candidate, is_cut) = cut raw in
    let joined = λ (index : ℕ).
      assign known app raws (device ∷ devices) grouped
        (record s { profiles = add_interface index device s.profiles }) in
    let opened =
      assign known app raws (device ∷ devices) ((candidate, length s.profiles) ∷ grouped)
        (open_group app device candidate s) in
    if not is_cut
      || not (is_device_name device)
      || text_eq device (codes "lo")
      || any (text_eq device) devices
    then err (bad_assignment app raw)
    else if not (any (text_eq candidate) known)
    then err (missing_strategy app candidate)
    else by_group (group_of candidate grouped) joined
        (if leb 255 (length s.strategies) then err too_many else opened)

abbrev pub is_nil {ℓ} : {A : Type ℓ} → List A → Bool
is_nil [] = true
is_nil (_ ∷ _) = false

-- The loop over the applications, with the names seen so far.
unfoldable pub compile_applications :
    List Text → List ZapretApplication → List Text → Compiled → Result CompileError Compiled
compile_applications known [] seen s = ok s
compile_applications known (app ∷ apps) seen s =
    let passed = compile_applications known apps (app.name ∷ seen) s in
    let compiled = assign known app.name app.assignments [] [] s >>= λ s'.
    compile_applications known apps (app.name ∷ seen) s' in
    if not (is_application_name app.name) || any (text_eq app.name) seen
    then err (bad_application app.name)
    else if not app.enabled
    then passed
    else if is_nil app.assignments
    then err (no_assignments app.name)
    else compiled

-- The strategies of a section, from the instances of the applications that it names.
unfoldable pub section_instances :
    List (Text × List Text) → Section → List Text → Result CompileError (List Text)
section_instances instances s [] = ok []
section_instances instances s (name ∷ rest) =
    let ids = instances_of name instances in
    let later = section_instances instances s rest >>= λ more. ok (ids ++ more) in
    if s.enabled && text_eq s.action (codes "zapret") && is_nil ids
    then err (missing_application s.name name)
    else later

abbrev pub application_names : Section → List Text
application_names s =
    if is_nil s.zapret_application_names then s.zapret_strategies else s.zapret_application_names

unfoldable pub compile_sections :
    List (Text × List Text) → List Section → Result CompileError (List Section)
compile_sections instances [] = ok []
compile_sections instances (s ∷ ss) = do
  ids ← section_instances instances s (application_names s)
  rest ← compile_sections instances ss
  ok (record s { zapret_application_names = application_names s; zapret_strategies = ids } ∷ rest)

abbrev pub resolved :
    Config → List ZapretStrategy × Option ZapretStrategy → Result CompileError Config
resolved c (strategies, none) = ok (record c { zapret_strategies = strategies })
resolved c (strategies, some missing) = err (missing_entry missing)

-- `CompileZapretApplications`; on an error the caller drops the configuration.
unfoldable pub compile_zapret_applications :
    (Text → Bool)
    → List ZapretApplication
    → List ZapretCandidate
    → Config
    → Result CompileError Config
compile_zapret_applications is_file apps library c = do
  s ←
      compile_applications (names library) apps []
        (record { profiles = []; strategies = []; instances = [] })
  sections ← compile_sections s.instances c.sections
  resolved (record c { zapret_profiles = s.profiles; sections = sections })
      (resolve_strategies is_file library s.strategies)
