-- ===== src/Tests/Applications.antt =====
-- internal/config/zapret_applications.go at one application on two devices.
use purewrt.Prelude.{◌≤◌, ◌≡◌, refl, true, [], ◌∷◌, ok, err, length}
use purewrt.Text.{Text, codes, text_eq}
use purewrt.Text.Decimal.{itoa}
use purewrt.Config.Model.{Config, is_empty}
use purewrt.Config.Candidates.{resolve_strategies, expand}
use purewrt.Config.Applications.{
  ZapretApplication, compile_zapret_applications, compile_applications, compile_sections, assign,
  open_group, cut, instances_of, instance_name, add_instance, group_of, add_interface,
  bad_assignment, new_profile, new_strategy,
}
use purewrt.Config.Applications.Marks.{
  Counts, marks, profile_names, used_profiles, compile_zapret_applications-Counts,
}
use purewrt.Tests.Library.{entry, users, nothing_shipped}

abbrev video_app : Text → ZapretApplication
video_app second = record {
  name = codes "video";
  enabled = true;
  assignments = codes "wan=fake" ∷ second ∷ codes "eth2=fake" ∷ [];
}

abbrev plain : Config
plain = record {
  settings = record { resource_profile = []; ipv6 = true; ipv6_mode = codes "auto" };
  sections = [];
  zapret_profiles = [];
  zapret_strategies = [];
}

-- The devices wan and eth2 share the group of the candidate fake.
abbrev compiled : Config
compiled = record plain {
  zapret_profiles =
      record (new_profile (codes "video_w1") (codes "wan")) {
        interfaces = codes "wan" ∷ codes "eth2" ∷ [];
      }
      ∷ new_profile (codes "video_w2") (codes "eth1")
      ∷ [];
  zapret_strategies =
      expand nothing_shipped (entry (codes "fake") (codes "mine"))
        (new_strategy (codes "video_w1") (codes "fake") 0)
      ∷ expand nothing_shipped (entry (codes "split") (codes "own"))
          (new_strategy (codes "video_w2") (codes "split") 1)
      ∷ [];
}

two_groups :
    compile_zapret_applications nothing_shipped (video_app (codes "eth1=split") ∷ []) users plain
    ≡ ok compiled
unfolding compile_zapret_applications compile_applications compile_sections assign cut text_eq
    group_of open_group add_interface instance_name add_instance instances_of itoa
    resolve_strategies expand is_empty
two_groups = refl

compile_zapret_applications-Counts_example :
    (length compiled.zapret_strategies ≤ 255)
    × Counts 0 (marks compiled.zapret_strategies)
    × (profile_names compiled.zapret_profiles ≡ used_profiles compiled.zapret_strategies)
compile_zapret_applications-Counts_example =
    compile_zapret_applications-Counts nothing_shipped (video_app (codes "eth1=split") ∷ []) users
      plain compiled two_groups

-- The device that is named twice is refused.
device_twice :
    compile_zapret_applications nothing_shipped (video_app (codes "wan=split") ∷ []) users plain
    ≡ err (bad_assignment (codes "video") (codes "wan=split"))
unfolding compile_zapret_applications compile_applications assign cut text_eq group_of open_group
device_twice = refl
