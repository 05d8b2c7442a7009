-- ===== src/Access/Destinations.antt =====
-- The build queues of the machines: ofborg/src/systems.rs.
use ofborg.Base.{◌≡◌, refl, arith, text}
use ofborg.Access.{
  System, x86_64_linux, aarch64_linux, x86_64_darwin, system_name, as_build_destination,
}

-- Two machines of different kinds never share a queue.
pub as_build_destination_inj :
    (s t : System) → as_build_destination s ≡ as_build_destination t → s ≡ t
unfolding as_build_destination system_name text
as_build_destination_inj x86_64_linux x86_64_linux h = refl
as_build_destination_inj aarch64_linux aarch64_linux h = refl
as_build_destination_inj x86_64_darwin x86_64_darwin h = refl
as_build_destination_inj _ _ h = ground arith
