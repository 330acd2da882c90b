-- ===== src/Merkle/Zeros.antt =====
-- src/merkle/zeroHashes.ts: the roots of the empty subtrees, by level. A canonical 32-byte hex string
-- stands for its number.
use ocash_sdk.Prelude.{ℕ, List, [], ◌∷◌, none, some, get_elem?}

abbrev pub tree_depth_default : ℕ
tree_depth_default = 32

abbrev pub zero_hashes : List ℕ
zero_hashes =
    0x0000000000000000000000000000000000000000000000000000000000000000
    ∷ 0x0c740b5d5661a25942f5aec3aa675b31c36714fa5026100b49af73236c2a265b
    ∷ 0x2dda8b6adb639dd4516e4d371ddf59c3b64b641be442b359774e4f08294578af
    ∷ 0x08bcf2c4cfee2ac031b52b315e75189f362a7bbdaf59767aa1c362acbd113419
    ∷ 0x2ae2a5f66632e926fb622035497debdc5902d667035f1211cb86b0fbf1a89e18
    ∷ 0x0194ca797fa11abd0fdf4042d0aaab02f57ad13f06bdcd4b9026eabb71fa6b65
    ∷ 0x173839dafdf0159d97514d06983efa414a9f8a4202c73b0a2e9660ee3e4f58a2
    ∷ 0x1b075787c4d0b4a075f8aaae92eaae2dafc9ca85d97a9c4bdcae981ff5e209f3
    ∷ 0x09326901b8704de14de1a00dfd80a074b832cbd65861d950a6a53995ecb7a528
    ∷ 0x1f5e2833033ace14e1b43c12b5c55e491abf98b0a96d0be0d4d8a17d1b390232
    ∷ 0x1a1168950d8fa4ecb93c40299070fd26893a447dec6ba7257ed0eb13761fcd4c
    ∷ 0x0550b54a45c982dfa2353f568e1ff29ad1e628c8331d07a6582eaa487559a240
    ∷ 0x02ab29f1ec9986780c0b65862861cfb9155ebc1d67d421c0b0c8521410cefac2
    ∷ 0x012c5234f4b66229c3e8630859716b268a04852b68125eb0adb0c619b58ccb72
    ∷ 0x23099bd0d72b0d04a5b2d68e6fee66f0cc5a7299104eba58bf0bddbfc17cabb7
    ∷ 0x1fa7911a66de8cc674dc0dcfa05fbf483f2998194150a764d7402f5d3fda3957
    ∷ 0x201215fcba3d3299a929fdb26322a93a088e3a72a3ede417670923125da731db
    ∷ 0x230368789a3a13ce4ef5d0c76e3910ff44cee2c474d759f932b6231ae575d837
    ∷ 0x0324b55ec4323910fc2d98f35778fc966298283a2613aeefdee757da8772ba14
    ∷ 0x23a6aa1a50ee5a7acabb1d30d672404102cd73e3e10568e1fee02bef2033ef50
    ∷ 0x0873c0433d55a801c675eabb4ecd16a0b06b48813c7bc8aee6783aa993504dff
    ∷ 0x2b40cf6d86fa31458292e9fd6229c810f60e0c0a99f7cd6195715f5140e59f4a
    ∷ 0x1ff6607fcf0170c83806f52f9955f6502299b925cf1f1565567d900a94585f1a
    ∷ 0x226d8e183f552483ab09bb9981da924645970fc43c6b25483ffe21238a0284cd
    ∷ 0x066d8efd0435d96291209ced94e2ee1b6028fe1f25a9639f0f53096349f4b298
    ∷ 0x23faf33cbce15c7bdf3facb33a86a7366133b2553005dbe799d2b5cd978f58b2
    ∷ 0x170e73814a05fba295e7a03fc5bb292fa6a8c4fbb515aefc56ccf7bd1457618c
    ∷ 0x1cd2d392493e7d0c8cfedfc3660969ba0a3c0c3a5e580d3f99bf3e4aab90d7e6
    ∷ 0x109f691ab1c14c204c6d46e6b8f66284cfd9c965cd71d7e29bc7fec3f69596ad
    ∷ 0x1bb7501506c802880e1776b6729be7ab184fb2efa8a52cb8b75f2cd90f8988e6
    ∷ 0x2bc603264ffed8e521886c85c055834b9bbebb554d8163cdeab68b1cda1a86c4
    ∷ 0x07fb3838f408ece56bc2d50c545cc46dbad4139e6d728e35325fa151b313c679
    ∷ 0x2520e295b7f5a56ab3e4b476dde6b81f8e27ea082a7674e7fb9eb052e1470e52 ∷ []

-- `zeroHashes[level] || zeroHashes[0]!`: a level that the table lacks gets the entry of level 0.
unfoldable pub get_zero_hash : ℕ → ℕ
get_zero_hash level = elim (get_elem? zero_hashes level) [ none ↦ 0 | some hash ↦ hash ]
