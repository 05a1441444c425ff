-- ===== src/Sys/Handles.antt =====
-- The table of src/tss2-sys/sysapi_util.c: how many handles a command and its response have.
use tpm2_tss_verified.Common.{ℕ, Bool, true, false, List, [], ◌∷◌, ◌==◌, if◌then◌else◌}

-- COMMAND_HANDLES
pub record CommandHandles : Type 0 where
  pub command_code : ℕ
  pub num_command_handles : ℕ
  pub num_response_handles : ℕ

abbrev entry : ℕ → ℕ → ℕ → CommandHandles
entry code commands responses = record {
  command_code = code;
  num_command_handles = commands;
  num_response_handles = responses;
}

abbrev pub command_array : List CommandHandles
command_array =
    entry 0x144 0 0
    ∷ entry 0x145 0 0
    ∷ entry 0x143 0 0
    ∷ entry 0x142 0 0
    ∷ entry 0x17c 0 0
    ∷ entry 0x176 2 1
    ∷ entry 0x180 1 0
    ∷ entry 0x153 1 0
    ∷ entry 0x157 1 1
    ∷ entry 0x167 0 1
    ∷ entry 0x173 1 0
    ∷ entry 0x147 2 0
    ∷ entry 0x168 1 0
    ∷ entry 0x15e 1 0
    ∷ entry 0x150 2 0
    ∷ entry 0x14b 2 0
    ∷ entry 0x152 2 0
    ∷ entry 0x156 1 0
    ∷ entry 0x174 1 0
    ∷ entry 0x159 1 0
    ∷ entry 0x163 1 0
    ∷ entry 0x154 1 0
    ∷ entry 0x178 0 0
    ∷ entry 0x18d 1 0
    ∷ entry 0x164 1 0
    ∷ entry 0x193 1 0
    ∷ entry 0x17d 0 0
    ∷ entry 0x155 1 0
    ∷ entry 0x17b 0 0
    ∷ entry 0x146 0 0
    ∷ entry 0x15b 1 1
    ∷ entry 0x186 0 1
    ∷ entry 0x15c 1 0
    ∷ entry 0x13e 1 0
    ∷ entry 0x185 2 0
    ∷ entry 0x148 2 0
    ∷ entry 0x14a 2 0
    ∷ entry 0x158 1 0
    ∷ entry 0x14d 3 0
    ∷ entry 0x133 2 0
    ∷ entry 0x14c 2 0
    ∷ entry 0x18b 1 0
    ∷ entry 0x18e 0 0
    ∷ entry 0x177 1 0
    ∷ entry 0x15d 1 0
    ∷ entry 0x140 1 0
    ∷ entry 0x182 1 0
    ∷ entry 0x13c 1 0
    ∷ entry 0x17e 0 0
    ∷ entry 0x12b 1 0
    ∷ entry 0x12c 1 0
    ∷ entry 0x183 1 0
    ∷ entry 0x13d 1 0
    ∷ entry 0x160 2 0
    ∷ entry 0x151 2 0
    ∷ entry 0x172 1 0
    ∷ entry 0x171 1 0
    ∷ entry 0x17f 1 0
    ∷ entry 0x16f 1 0
    ∷ entry 0x149 3 0
    ∷ entry 0x18f 1 0
    ∷ entry 0x16d 1 0
    ∷ entry 0x16c 1 0
    ∷ entry 0x187 1 0
    ∷ entry 0x16e 1 0
    ∷ entry 0x170 1 0
    ∷ entry 0x188 1 0
    ∷ entry 0x16a 1 0
    ∷ entry 0x16b 1 0
    ∷ entry 0x18c 1 0
    ∷ entry 0x189 1 0
    ∷ entry 0x190 1 0
    ∷ entry 0x131 1 1
    ∷ entry 0x121 1 0
    ∷ entry 0x12e 1 0
    ∷ entry 0x125 1 0
    ∷ entry 0x124 1 0
    ∷ entry 0x126 1 0
    ∷ entry 0x127 1 0
    ∷ entry 0x129 1 0
    ∷ entry 0x139 1 0
    ∷ entry 0x13a 1 0
    ∷ entry 0x12d 1 0
    ∷ entry 0x13f 1 0
    ∷ entry 0x12f 2 0
    ∷ entry 0x141 0 0
    ∷ entry 0x179 0 0
    ∷ entry 0x162 1 0
    ∷ entry 0x161 0 1
    ∷ entry 0x165 1 0
    ∷ entry 0x120 2 0
    ∷ entry 0x181 0 0
    ∷ entry 0x128 1 0
    ∷ entry 0x130 1 0
    ∷ entry 0x17a 0 0
    ∷ entry 0x18a 0 0
    ∷ entry 0x12a 1 0
    ∷ entry 0x122 2 0
    ∷ entry 0x11f 2 0
    ∷ entry 0x169 1 0
    ∷ entry 0x137 2 0
    ∷ entry 0x134 2 0
    ∷ entry 0x136 2 0
    ∷ entry 0x135 2 0
    ∷ entry 0x138 2 0
    ∷ entry 0x132 1 0
    ∷ entry 0x14e 2 0
    ∷ entry 0x14f 2 0
    ∷ entry 0x13b 1 0
    ∷ entry 0x184 3 0
    ∷ entry 0x191 1 1
    ∷ entry 0x192 3 0
    ∷ entry 0x194 1 0
    ∷ entry 0x195 3 0
    ∷ entry 0x196 1 0
    ∷ []

num_handles_in : List CommandHandles → ℕ → Bool → ℕ
num_handles_in [] command_code req = 0
num_handles_in (row ∷ rows) command_code req =
    let later = num_handles_in rows command_code req in
    if command_code == row.command_code
    then (if req then row.num_command_handles else row.num_response_handles)
    else later

unfoldable pub get_num_handles : ℕ → Bool → ℕ
unfolding num_handles_in
get_num_handles = num_handles_in command_array

unfoldable pub get_num_command_handles : ℕ → ℕ
unfolding get_num_handles
get_num_command_handles command_code = get_num_handles command_code true

unfoldable pub get_num_response_handles : ℕ → ℕ
unfolding get_num_handles
get_num_response_handles command_code = get_num_handles command_code false
