-- ===== src/Platform.antt =====
-- shared/src/platform: what a worker runs on.
pub mod Equality
use grid_server.Base.{ℕ, Bool, ◌&&◌, ◌==◌}

pub data Arch : Type 0 where
  wasm32 x86 x86_64 arm aarch64 loongarch64 m68k csky mips mips64 powerpc powerpc64 riscv64 s390x
        sparc64 unknown_arch :
      Arch

pub data Family : Type 0 where
  unix windows_family unknown_family : Family

pub data Os : Type 0 where
  linux macos ios freebsd dragonfly netbsd openbsd solaris android windows unknown_os : Os

pub record Platform : Type 0 where
  pub arch : Arch
  pub family : Family
  pub os : Os

-- The derived `Eq` compares discriminants.
abbrev pub arch_index : Arch → ℕ
arch_index wasm32 = 0
arch_index x86 = 1
arch_index x86_64 = 2
arch_index arm = 3
arch_index aarch64 = 4
arch_index loongarch64 = 5
arch_index m68k = 6
arch_index csky = 7
arch_index mips = 8
arch_index mips64 = 9
arch_index powerpc = 10
arch_index powerpc64 = 11
arch_index riscv64 = 12
arch_index s390x = 13
arch_index sparc64 = 14
arch_index unknown_arch = 15

abbrev pub family_index : Family → ℕ
family_index unix = 0
family_index windows_family = 1
family_index unknown_family = 2

abbrev pub os_index : Os → ℕ
os_index linux = 0
os_index macos = 1
os_index ios = 2
os_index freebsd = 3
os_index dragonfly = 4
os_index netbsd = 5
os_index openbsd = 6
os_index solaris = 7
os_index android = 8
os_index windows = 9
os_index unknown_os = 10

unfoldable pub same_platform : Platform → Platform → Bool
same_platform a b =
    (arch_index a.arch == arch_index b.arch)
    && (family_index a.family == family_index b.family)
    && (os_index a.os == os_index b.os)
