-- ===== src/Types/Volumes.antt =====
-- The mounts and volumes that the pod templates of the three workloads have in common.
use vitastor_operator.Prelude.{List, [], ◌∷◌}
use vitastor_operator.Types.Workload.{VolumeMount, Volume, host_path, config_map}

abbrev pub config_mount : VolumeMount
config_mount = record { name = "vitastor-config"; mount_path = "/etc/vitastor" }

abbrev pub config_volume : Volume
config_volume = record { name = "vitastor-config"; source = config_map "vitastor-config" }

-- The host's directories, with the configuration, as the agents and the OSDs mount them.
abbrev pub host_mounts : List VolumeMount
host_mounts =
    config_mount
    ∷ record { name = "host-dev"; mount_path = "/dev" }
    ∷ record { name = "host-sys"; mount_path = "/sys" }
    ∷ record { name = "host-lib-modules"; mount_path = "/lib/modules" }
    ∷ []

abbrev pub host_volumes : List Volume
host_volumes =
    record { name = "host-dev"; source = host_path "/dev" }
    ∷ record { name = "host-sys"; source = host_path "/sys" }
    ∷ record { name = "host-lib-modules"; source = host_path "/lib/modules" }
    ∷ config_volume
    ∷ []
